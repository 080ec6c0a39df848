-- ===== src/Http/Steps.antt =====
-- What the steps of a handler in server.go leave of the world: only the call of a service changes it.
use eastbay_overland_rally_p.Prelude.{
  ℕ, Option, none, some, ◌≡◌, refl, inl, inr, Bool-cases, Option-cases, ◌==◌, string_eq,
}
use eastbay_overland_rally_p.Domain.{SubjectId, Member}
use eastbay_overland_rally_p.Ports.{Result, ok, err, Result-cases}
use eastbay_overland_rally_p.Ports.Idempotency.{IdempotencyStore}
use eastbay_overland_rally_p.Service.{Backend, World, Exec}
use eastbay_overland_rally_p.Members.Directory.{get_my_member_profile}
use eastbay_overland_rally_p.Http.Handler.{
  Context, Reply, replied, Server, Site, Handler, serve, pass, must, authenticate, caller_of,
  body_of, perform, inquire, subject_from_context, ◌>>=◌, ◌>>◌,
}
use eastbay_overland_rally_p.Http.Idempotent.{
  Exchange, response_fingerprint, decoded, is_replayable, claim_key, replay_record, get_record,
  begin, keep, once, plainly,
}

-- `P` relates the world before a request to the world after it.
module _ {B : Backend} {idem : Option IdempotencyStore} {R : Type 0} (ctx : Context)
    (P : World B → Type 0) where
  unfoldable pub Ends : Site B idem → Handler B idem R (Reply R) → Type 0
  Ends site h = P (serve h site).1.world

  module _ (site : Site B idem) (stays : P site.world) where
    pub authenticate-Ends :
        (k : SubjectId → Handler B idem R (Reply R))
        → ((sub : SubjectId) → subject_from_context ctx ≡ some sub → Ends site (k sub))
        → Ends site (authenticate ctx >>= k)
    unfolding Ends serve authenticate
    authenticate-Ends k p = elim (Option-cases (subject_from_context ctx)) [
      | inl e ↦ rw e stays
      | inr (sub, e) ↦ rw e (p sub e)
    ]

    pub caller-Ends :
        (s : Server B idem) (sub : SubjectId) (k : Member → Handler B idem R (Reply R))
        → ((me : Member)
            → get_my_member_profile B s.members sub site.world ≡ ok me
            → Ends site (k me))
        → Ends site (caller_of s ctx sub >>= k)
    unfolding Ends serve caller_of
    caller-Ends s sub k p = elim (Result-cases (get_my_member_profile B s.members sub site.world)) [
      | inr (e, q) ↦ rw q stays
      | inl (me, q) ↦ rw q (p me q)
    ]

    pub body-Ends :
        {A : Type 0} (b : Option A) (k : A → Handler B idem R (Reply R))
        → ((a : A) → Ends site (k a))
        → Ends site (body_of ctx b >>= k)
    unfolding Ends serve body_of
    body-Ends none k p = stays
    body-Ends (some a) k p = p a

    pub must-Ends :
        {A : Type 0} (r : Result A) (k : A → Handler B idem R (Reply R))
        → ((a : A) → Ends site (k a))
        → Ends site (must r >>= k)
    unfolding Ends serve must
    must-Ends (err e) k p = stays
    must-Ends (ok a) k p = p a

    pub inquire-Ends :
        {A : Type 0} (statuses : ℕ → Option ℕ) (f : World B → Result A) (status : ℕ)
        (document : A → R)
        → Ends site (inquire ctx statuses f >>= λ a. pass (replied status (document a)))
    unfolding Ends serve inquire
    inquire-Ends statuses f status document = elim (Result-cases (f site.world)) [
      | inr (e, q) ↦ rw q stays
      | inl (a, q) ↦ rw q stays
    ]

module _ {B : Backend} {R A : Type 0} (ctx : Context) (P : World B → Type 0)
    (statuses : ℕ → Option ℕ) (call : Exec B A) (document : A → R) where
  module _ {idem : Option IdempotencyStore} (site : Site B idem)
      (changes : P (call site.world).1) where
    pub plainly-Ends :
        (status : ℕ) → Ends ctx P site (plainly idem ctx status statuses call document)
    unfolding Ends serve plainly perform
    plainly-Ends status = elim (Result-cases (call site.world).0) [
      | inr (e, q) ↦ rw q changes
      | inl (a, q) ↦ rw q changes
    ]

module _ {B : Backend} {R : Type 0} (ctx : Context) (P : World B → Type 0) (x : Exchange R) where
  module _ {i : IdempotencyStore} (s : Server B (some i)) (k : Handler B (some i) R (Reply R)) where
    -- `k` may run on any site with the same world
    abbrev Runs : World B → Type 0
    Runs w = (site : Site B (some i)) → site.world ≡ w → Ends ctx P site k

    look-Ends :
        (site : Site B (some i))
        → P site.world
        → Runs site.world
        → Ends ctx P site
            ((do rec ← get_record i (response_fingerprint x); replay_record i x rec) >> k)
    unfolding Ends serve must replay_record
    look-Ends site stays runs = elim (Result-cases (i.get (response_fingerprint x) site.kept)) [
      | inr (e, p) ↦ rw p stays
      | inl (none, p) ↦ rw p (runs site refl)
      | inl (some rec, p) ↦
          elim (Option-cases (decoded (is_replayable x rec) (x.format.unmarshal rec.body))) [
            | inl nothing ↦ rw (p, nothing) (runs site refl)
            | inr (payload, found) ↦ rw (p, found) stays
          ]
    ]

    claim-Ends :
        (site : Site B (some i))
        → P site.world
        → Runs site.world
        → Ends ctx P site (begin (some i) s ctx x >> k)
    unfolding Ends serve must begin claim_key
    claim-Ends site stays runs = elim (Result-cases (i.get x.meta site.kept)) [
      | inr (e, p) ↦ rw p stays
      | inl (none, p) ↦ rw p (look-Ends _ stays runs)
      | inl (some meta, p) ↦ elim (Bool-cases (meta.body == x.body_hash)) [
        | inl same ↦ rw (p, same) (look-Ends site stays runs)
        | inr differs ↦ rw (p, differs) stays
      ]
    ]

  pub begin-Ends :
      {idem : Option IdempotencyStore} (s : Server B idem) (k : Handler B idem R (Reply R))
      (site : Site B idem)
      → P site.world
      → ((later : Site B idem) → later.world ≡ site.world → Ends ctx P later k)
      → Ends ctx P site (begin idem s ctx x >> k)
  unfolding Ends serve begin
  begin-Ends {idem = none} s k site stays runs = runs site refl
  begin-Ends {idem = some i} s k site stays runs = claim-Ends s k site stays runs

  keep-Ends :
      {idem : Option IdempotencyStore} (s : Server B idem) (site : Site B idem) (resp : R)
      → P site.world
      → Ends ctx P site (keep idem s x resp >> pass (replied x.success resp))
  unfolding Ends serve keep
  keep-Ends {idem = none} s site resp h = h
  keep-Ends {idem = some i} s site resp h = elim (Result-cases (x.format.marshal resp)) [
    | inr (e, p) ↦ rw p h
    | inl (text, p) ↦ rw p h
  ]

  perform-Ends :
      {A : Type 0} {idem : Option IdempotencyStore} (s : Server B idem) (statuses : ℕ → Option ℕ)
      (call : Exec B A) (document : A → R) (site : Site B idem)
      → P (call site.world).1
      → Ends ctx P site (
          perform ctx statuses call >>= λ a.
          keep idem s x (document a) >> pass (replied x.success (document a)))
  unfolding Ends serve perform
  perform-Ends s statuses call document site changes = elim (Result-cases (call site.world).0) [
    | inr (e, q) ↦ rw q changes
    | inl (a, q) ↦ rw q (keep-Ends s _ (document a) changes)
  ]

  pub once-Ends :
      {A : Type 0} {idem : Option IdempotencyStore} (s : Server B idem) (statuses : ℕ → Option ℕ)
      (call : Exec B A) (document : A → R) (site : Site B idem)
      → P site.world
      → P (call site.world).1
      → Ends ctx P site (once idem s ctx x statuses call document)
  unfolding once
  once-Ends s statuses call document site stays changes =
      begin-Ends s _ site stays
        λ later same. perform-Ends s statuses call document later (rw same changes)
