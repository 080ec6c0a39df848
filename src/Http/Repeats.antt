-- ===== src/Http/Repeats.antt =====
-- The handlers of server.go that take an Idempotency-Key, on a request that is sent twice.
use eastbay_overland_rally_p.Prelude.{
  ℕ, String, Option, none, some, ◌≡◌, ◌≢◌, refl, inl, inr, Option-cases, Bool-cases,
}
use eastbay_overland_rally_p.Domain.{SubjectId, Member}
use eastbay_overland_rally_p.Ports.{Result, ok, err, Result-cases}
use eastbay_overland_rally_p.Ports.Idempotency.{IdempotencyStore, IdempotencyLaws}
use eastbay_overland_rally_p.Service.{Backend, World, Exec}
use eastbay_overland_rally_p.Members.Directory.{get_my_member_profile}
use eastbay_overland_rally_p.Http.Codec.{Format}
use eastbay_overland_rally_p.Http.Handler.{
  Context, Reply, replied, Server, Site, Handler, serve, must, authenticate, caller_of, body_of,
  subject_from_context, key_reuse, is_member_not_provisioned, ◌>>=◌,
}
use eastbay_overland_rally_p.Http.Idempotent.{Exchange, once}
use eastbay_overland_rally_p.Http.Replay.{IsExchange, once-replays, once-rejects}
use eastbay_overland_rally_p.Http.Remember.{IsRemembered, once-IsRemembered}

module _ {B : Backend} {i : IdempotencyStore} (s : Server B (some i)) (ctx : Context) where
  -- the subject of the request, if it has one, is bound to a member
  unfoldable pub IsProvisioned : World B → Type 0
  IsProvisioned w =
      (sub : SubjectId)
      → subject_from_context ctx ≡ some sub
      → (me : Member) × (get_my_member_profile B s.members sub w ≡ ok me)

  module _ {R : Type 0} (f : Format R) where
    -- What a second request may answer: the status, the document and its JSON text of the first
    -- reply, the site of the second request, and what serving the second request returns.
    abbrev pub Answer : Type 1
    Answer = ℕ → R → String → Site B (some i) → Result (Reply R) × Site B (some i) → Type 0

    -- After `h` has succeeded, `h'` answers as `D` says on every later site that keeps the replies of
    -- then and still knows the caller.
    unfoldable pub Relates :
        Answer → Handler B (some i) R (Reply R) → Handler B (some i) R (Reply R) → Type 0
    Relates D h h' =
        (site later : Site B (some i)) (status : ℕ) (r : R) (text : String)
        → (serve h site).0 ≡ ok (replied status r)
        → f.marshal r ≡ ok text
        → later.kept ≡ (serve h site).1.kept
        → IsProvisioned later.world
        → D status r text later (serve h' later)

    -- the same status and the same JSON text, and nothing changes
    abbrev pub SameReply : Answer
    SameReply status r text later out =
        (r' : R) × (out ≡ (ok (replied status r'), later)) × (f.marshal r' ≡ ok text)

    -- the refusal of a key that was used for another body, and nothing changes
    abbrev pub Refusal : Answer
    Refusal status r text later out = out ≡ (ok (key_reuse ctx), later)

    abbrev pub Repeats : Handler B (some i) R (Reply R) → Handler B (some i) R (Reply R) → Type 0
    Repeats = Relates SameReply

    abbrev pub Rejects : Handler B (some i) R (Reply R) → Handler B (some i) R (Reply R) → Type 0
    Rejects = Relates Refusal

    module _ (D : Answer) where
      authenticate-Relates :
          (k k' : SubjectId → Handler B (some i) R (Reply R))
          → ((sub : SubjectId) → subject_from_context ctx ≡ some sub → Relates D (k sub) (k' sub))
          → Relates D (authenticate ctx >>= k) (authenticate ctx >>= k')
      unfolding Relates serve authenticate
      authenticate-Relates k k' p = elim (Option-cases (subject_from_context ctx)) [
        | inl e ↦ rw e (λ site later status r text h. absurd cc)
        | inr (sub, e) ↦ rw e (p sub e)
      ]

      pub body-Relates :
          {A : Type 0} (b b' : Option A) (k k' : A → Handler B (some i) R (Reply R))
          → ((a : A) → b ≡ some a → (a' : A) × (b' ≡ some a') × Relates D (k a) (k' a'))
          → Relates D (body_of ctx b >>= k) (body_of ctx b' >>= k')
      unfolding Relates serve body_of
      body-Relates none b' k k' p = λ site later status r text h. absurd cc
      body-Relates (some a) b' k k' p = let (a', e, q) = p a refl in rw e q

      pub must-Relates :
          {A : Type 0} (r r' : Result A) (k k' : A → Handler B (some i) R (Reply R))
          → ((a : A) → r ≡ ok a → (a' : A) × (r' ≡ ok a') × Relates D (k a) (k' a'))
          → Relates D (must r >>= k) (must r' >>= k')
      unfolding Relates serve must
      must-Relates (err e) r' k k' p = λ site later status r text h. absurd cc
      must-Relates (ok a) r' k k' p = let (a', e, q) = p a refl in rw e q

      caller-Relates :
          (sub : SubjectId) (k k' : Member → Handler B (some i) R (Reply R))
          → subject_from_context ctx ≡ some sub
          → ((me me' : Member) → Relates D (k me) (k' me'))
          → Relates D (caller_of s ctx sub >>= k) (caller_of s ctx sub >>= k')
      unfolding Relates serve caller_of IsProvisioned
      caller-Relates sub k k' e p site later status r text =
          elim (Result-cases (get_my_member_profile B s.members sub site.world)) [
            | inr (g, q) ↦ elim (Bool-cases (is_member_not_provisioned g)) [
              | inl unbound ↦ rw (q, unbound) (λ h. absurd cc)
              | inr other ↦ rw (q, other) (λ h. absurd cc)
            ]
            | inl (me, q) ↦ rw q λ h m same known.
                let (me', q') = known sub e in
                rw q' (p me me' site later status r text h m same known)
          ]

      -- what comes after the subject of the request is known
      pub subject-Relates :
          (k k' : SubjectId → Handler B (some i) R (Reply R))
          → ((sub : SubjectId) → Relates D (k sub) (k' sub))
          → Relates D (authenticate ctx >>= k) (authenticate ctx >>= k')
      subject-Relates k k' p = authenticate-Relates k k' (λ sub bound. p sub)

      -- what comes after the caller is known
      pub member-Relates :
          (k k' : SubjectId → Member → Handler B (some i) R (Reply R))
          → ((sub : SubjectId) (me me' : Member) → Relates D (k sub me) (k' sub me'))
          → Relates D
              (authenticate ctx >>= λ sub. caller_of s ctx sub >>= k sub)
              (authenticate ctx >>= λ sub. caller_of s ctx sub >>= k' sub)
      member-Relates k k' p =
          authenticate-Relates _ _ λ sub bound. caller-Relates sub (k sub) (k' sub) bound (p sub)

  module _ {R A A' : Type 0} (L : IdempotencyLaws i) (x : Exchange R) (e : IsExchange x)
      (statuses statuses' : ℕ → Option ℕ) (call : Exec B A) (call' : Exec B A') (document : A → R)
      (document' : A' → R) where
    pub once-Repeats :
        Repeats x.format
          (once (some i) s ctx x statuses call document)
          (once (some i) s ctx x statuses' call' document')
    unfolding Relates IsRemembered
    once-Repeats site later status r text h m same known =
        let (good, claimed, (r', kept, written)) =
          once-IsRemembered L x e s ctx statuses call document site status r text h m in
        (
          r',
          rw good (
              once-replays s ctx x later r' statuses' call' document' (rw same claimed)
                (rw same kept)),
          written,
        )

    pub once-Rejects :
        (x' : Exchange R)
        → x'.meta ≡ x.meta
        → x'.body_hash ≢ x.body_hash
        → Rejects x.format
            (once (some i) s ctx x statuses call document)
            (once (some i) s ctx x' statuses' call' document')
    unfolding Relates IsRemembered
    once-Rejects x' one_key differs site later status r text h m same known =
        let (good, (meta, found, body), kept) =
          once-IsRemembered L x e s ctx statuses call document site status r text h m in
        once-rejects s ctx x' later statuses' call' document' meta (rw (one_key, same) found)
          (λ other. differs cc)
