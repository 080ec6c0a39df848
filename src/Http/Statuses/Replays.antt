-- ===== src/Http/Statuses/Replays.antt =====
-- The statuses of a handler that replays a stored reply, against the declared ones.
use eastbay_overland_rally_p.Prelude.{
  ℕ, true, List, [], Option, none, some, ◌≡◌, refl, inl, inr, Bool-cases, Option-cases, ◌==◌,
  nat_eq, string_eq,
}
use eastbay_overland_rally_p.Ports.{Result-cases}
use eastbay_overland_rally_p.Ports.Errors.{declares, Raises, Within}
use eastbay_overland_rally_p.Ports.Idempotency.{IdempotencyStore}
use eastbay_overland_rally_p.Service.{Backend, Exec}
use eastbay_overland_rally_p.Service.Errors.{Throws}
use eastbay_overland_rally_p.Http.Handler.{
  Context, Reply, replied, Server, Handler, serve, pass, must, ◌>>=◌, ◌>>◌,
}
use eastbay_overland_rally_p.Http.Idempotent.{
  Exchange, response_fingerprint, decoded, is_replayable, claim_key, replay_record, get_record,
  begin, keep, once,
}
use eastbay_overland_rally_p.Http.Statuses.{Translates, KeptErrors, Answers, perform-Answers}

module _ {B : Backend} {R : Type 0} (ctx : Context) (refusals : List ℕ) (x : Exchange R)
    (conflict : declares refusals 409 ≡ true) where
  module _ {i : IdempotencyStore} (s : Server B (some i)) (k : Handler B (some i) R (Reply R))
      (p : Answers ctx x.success refusals k) (K : KeptErrors (some i)) where
    look-Answers :
        Answers ctx x.success refusals
          ((do rec ← get_record i (response_fingerprint x); replay_record i x rec) >> k)
    unfolding Answers serve must replay_record
    look-Answers site =
        let within : Within [] (i.get (response_fingerprint x) site.kept) =
          K (response_fingerprint x) site.kept in
        elim (Result-cases (i.get (response_fingerprint x) site.kept)) [
          | inr (e, q) ↦ let r : Raises [] e = rw q at within in rw q r
          | inl (none, q) ↦ rw q (p site)
          | inl (some rec, q) ↦
              elim (Option-cases (decoded (is_replayable x rec) (x.format.unmarshal rec.body))) [
                | inl nothing ↦ rw (q, nothing) (p site)
                | inr (payload, found) ↦ rw (q, found) refl
              ]
        ]

    claim-Answers : Answers ctx x.success refusals (begin (some i) s ctx x >> k)
    unfolding Answers serve must begin claim_key
    claim-Answers site =
        let within : Within [] (i.get x.meta site.kept) = K x.meta site.kept in
        elim (Result-cases (i.get x.meta site.kept)) [
          | inr (e, q) ↦ let r : Raises [] e = rw q at within in rw q r
          | inl (none, q) ↦ rw q (look-Answers _)
          | inl (some meta, q) ↦ elim (Bool-cases (meta.body == x.body_hash)) [
            | inl same ↦ rw (q, same) (look-Answers site)
            | inr differs ↦ rw (q, differs) conflict
          ]
        ]

  pub begin-Answers :
      {idem : Option IdempotencyStore} (s : Server B idem) (k : Handler B idem R (Reply R))
      → KeptErrors idem
      → Answers ctx x.success refusals k
      → Answers ctx x.success refusals (begin idem s ctx x >> k)
  unfolding Answers serve begin
  begin-Answers {idem = none} s k K p = p
  begin-Answers {idem = some i} s k K p = claim-Answers s k p K

  keep-Answers :
      {idem : Option IdempotencyStore} (s : Server B idem) (resp : R)
      → Answers ctx x.success refusals (keep idem s x resp >> pass (replied x.success resp))
  unfolding Answers serve keep
  keep-Answers {idem = none} s resp site = refl
  keep-Answers {idem = some i} s resp site = elim (Result-cases (x.format.marshal resp)) [
    | inr (e, q) ↦ rw q refl
    | inl (text, q) ↦ rw q refl
  ]

  pub once-Answers :
      {A : Type 0} {idem : Option IdempotencyStore} {raised : List ℕ} (s : Server B idem)
      (statuses : ℕ → Option ℕ) (call : Exec B A) (document : A → R)
      → KeptErrors idem
      → Translates raised refusals statuses
      → Throws raised call
      → Answers ctx x.success refusals (once idem s ctx x statuses call document)
  unfolding once
  once-Answers s statuses call document K h t =
      begin-Answers s _ K (
        perform-Answers ctx x.success refusals statuses call _ h t λ a. keep-Answers s (document a))
