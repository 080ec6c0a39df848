-- ===== src/Http/Remember.antt =====
-- A call with an idempotency key that succeeds leaves its reply for the next request.
use eastbay_overland_rally_p.Prelude.{
  ℕ, pos, String, true, Option-cases, Option, none, some, ◌≡◌, ◌≢◌, refl, inl, inr, Bool-cases,
  ◌==◌, string_eq, nat_eq, eq_iff,
}
use eastbay_overland_rally_p.Text.{has_prefix}
use eastbay_overland_rally_p.Domain.{Time, utc}
use eastbay_overland_rally_p.Ports.{
  Result, ok, Result-cases, Failure, Error, app, backend, trip_not_found, trip_already_exists,
  member_not_found, subject_already_bound, member_already_exists, rsvp_not_found,
}
use eastbay_overland_rally_p.Ports.Idempotency.{Record, IdempotencyStore, IdempotencyLaws}
use eastbay_overland_rally_p.Service.{Backend, Exec}
use eastbay_overland_rally_p.Http.Handler.{
  Context, Reply, replied, Server, Site, serve, must, perform, answer, answer_with, ◌>>=◌, ◌>>◌,
  pass,
}
use eastbay_overland_rally_p.Http.Idempotent.{
  Exchange, response_fingerprint, decoded, is_replayable, claim_key, replay_record, get_record,
  begin, keep, once,
}
use eastbay_overland_rally_p.Http.Replay.{
  IsClaimed, IsKept, IsExchange, put-IsClaimed, put-keeps_claim, put-IsKept, decoded_inv,
}

answered_with-refuses :
    {R : Type 0} (ctx : Context) (e : Error) (code : Option ℕ) (status : ℕ) (r : R)
    → answer_with ctx e code ≢ ok (replied status r)
answered_with-refuses ctx e none status r h = absurd cc
answered_with-refuses ctx e (some code) status r h = absurd cc

-- An error is never answered as a success.
answer-refuses :
    {R : Type 0} (ctx : Context) (f : ℕ → Option ℕ) (e : Failure) (status : ℕ) (r : R)
    → answer ctx f e ≢ ok (replied status r)
answer-refuses ctx f (app e) status r h = answered_with-refuses ctx e (f e.status) status r h
answer-refuses ctx f (backend e) status r h = absurd cc
answer-refuses ctx f trip_not_found status r h = absurd cc
answer-refuses ctx f trip_already_exists status r h = absurd cc
answer-refuses ctx f member_not_found status r h = absurd cc
answer-refuses ctx f subject_already_bound status r h = absurd cc
answer-refuses ctx f member_already_exists status r h = absurd cc
answer-refuses ctx f rsvp_not_found status r h = absurd cc

module _ {B : Backend} {R : Type 0} {i : IdempotencyStore} (x : Exchange R) where
  -- What a successful call leaves: the claim, and a reply that is written as the one returned.
  unfoldable pub IsRemembered : Result (Reply R) × Site B (some i) → Type 0
  IsRemembered (out, site) =
      (status : ℕ) (r : R) (text : String)
      → out ≡ ok (replied status r)
      → x.format.marshal r ≡ ok text
      → (status ≡ x.success)
        × IsClaimed i x site.kept
        × ((r' : R) × IsKept i x r' site.kept × (x.format.marshal r' ≡ ok text))

-- a record that `keep` writes
abbrev kept_record : {R : Type 0} → Exchange R → String → Time → Record
kept_record x text at = record {
  status_code = pos x.success;
  content_type = "application/json";
  body = text;
  created_at = at;
}

kept-is_replayable :
    {R : Type 0} (x : Exchange R) (text : String) (at : Time)
    → is_replayable x (kept_record x text at) ≡ true
unfolding has_prefix
kept-is_replayable x text at = rw ((nat_eq.same_iff x.success x.success).1 refl) refl

module _ {B : Backend} {R A : Type 0} {i : IdempotencyStore} (L : IdempotencyLaws i)
    (x : Exchange R) (e : IsExchange x) (s : Server B (some i)) (ctx : Context)
    (statuses : ℕ → Option ℕ) (call : Exec B A) (document : A → R) where
  -- from the call to the end
  abbrev finish : Site B (some i) → Result (Reply R) × Site B (some i)
  finish = serve (do
    a ← perform ctx statuses call
    let resp = document a
    keep (some i) s x resp
    pass (replied x.success resp))

  finish-IsRemembered :
      (site : Site B (some i)) → IsClaimed i x site.kept → IsRemembered x (finish site)
  unfolding IsRemembered serve perform keep
  finish-IsRemembered site claimed = elim (Result-cases (call site.world).0) [
    | inr (f, p) ↦ rw p (λ status r text h m. absurd (answer-refuses ctx statuses f status r h))
    | inl (a, p) ↦ elim (Result-cases (x.format.marshal (document a))) [
      | inl (t, q) ↦
          rw (p, q)
            λ status r text h m.
              let (r', reread, same) = e.faithful.reread (document a) t q in
              let at = utc (s.now site.ticks) in
              let rec = kept_record x t at in
              (
                cc,
                put-keeps_claim L x e rec site.kept claimed,
                (r', put-IsKept L x e rec site.kept r' (kept-is_replayable x t at) reread, cc),
              )
      | inr (f, q) ↦ rw (p, q) (λ status r text h m. absurd cc)
    ]
  ]

  -- from the look at the kept reply to the end
  abbrev proceed : Site B (some i) → Result (Reply R) × Site B (some i)
  proceed = serve (
      (do rec ← get_record i (response_fingerprint x); replay_record i x rec) >> (do
        a ← perform ctx statuses call
        let resp = document a
        keep (some i) s x resp
        pass (replied x.success resp)))

  proceed-IsRemembered :
      (site : Site B (some i)) → IsClaimed i x site.kept → IsRemembered x (proceed site)
  unfolding IsRemembered serve must replay_record
  proceed-IsRemembered site claimed =
      elim (Result-cases (i.get (response_fingerprint x) site.kept)) [
        | inr (f, p) ↦ rw p (λ status r text h m. absurd cc)
        | inl (none, p) ↦ rw p (finish-IsRemembered site claimed)
        | inl (some rec, p) ↦
            elim (Option-cases (decoded (is_replayable x rec) (x.format.unmarshal rec.body))) [
              | inl nothing ↦ rw (p, nothing) (finish-IsRemembered site claimed)
              | inr (payload, found) ↦
                  rw (p, found)
                    λ status r text h m.
                      let (good, read) = decoded_inv (is_replayable x rec) _ payload found in
                      (cc, claimed, (payload, (rec, p, good, read), cc))
            ]
      ]

  -- A call that succeeds is remembered.
  pub once-IsRemembered :
      (site : Site B (some i))
      → IsRemembered x (serve (once (some i) s ctx x statuses call document) site)
  unfolding IsRemembered serve once begin must claim_key
  once-IsRemembered site = elim (Result-cases (i.get x.meta site.kept)) [
    | inr (f, p) ↦ rw p (λ status r text h m. absurd cc)
    | inl (none, p) ↦ rw p (proceed-IsRemembered _ (put-IsClaimed L x e _ site.kept refl))
    | inl (some meta, p) ↦ elim (Bool-cases (meta.body == x.body_hash)) [
      | inl same ↦
          rw (p, same) (proceed-IsRemembered site (meta, p, (eq_iff meta.body x.body_hash).0 same))
      | inr differs ↦ rw (p, differs) (λ status r text h m. absurd cc)
    ]
  ]
