-- ===== src/Http/Replay.antt =====
-- A request that is sent again with the same key and the same body: what the block before the call
-- and the block after it leave in the store of replies, and what they answer from it.
use eastbay_overland_rally_p.Prelude.{
  ℕ, Bool, true, false, Option, some, ◌≡◌, ◌≢◌, refl, ap, ◌∙◌, inl, inr, Bool-cases, ◌==◌,
  string_eq, nat_eq, eq_iff,
}
use eastbay_overland_rally_p.Ports.{Result, ok, err}
use eastbay_overland_rally_p.Ports.Idempotency.{
  Fingerprint, Record, same_fingerprint, same_fingerprint_iff, IdempotencyStore, IdempotencyLaws,
}
use eastbay_overland_rally_p.Service.{Backend, Exec}
use eastbay_overland_rally_p.Http.Codec.{IsFaithful}
use eastbay_overland_rally_p.Http.Handler.{Context, replied, Server, Site, serve, must, key_reuse}
use eastbay_overland_rally_p.Http.Idempotent.{
  Exchange, response_fingerprint, is_replayable, decoded, claim_key, replay_record, begin, once,
}

module _ {R : Type 0} (i : IdempotencyStore) (x : Exchange R) where
  -- the key is claimed for the hash of the body
  abbrev pub IsClaimed : i.Store → Type 0
  IsClaimed st = (meta : Record) × (i.get x.meta st ≡ ok (some meta)) × (meta.body ≡ x.body_hash)

  -- a reply is kept for the request
  abbrev pub IsKept : R → i.Store → Type 0
  IsKept r st =
      (rec : Record) × (i.get (response_fingerprint x) st ≡ ok (some rec))
      × (is_replayable x rec ≡ true)
      × (x.format.unmarshal rec.body ≡ ok r)

-- The fingerprint of the key and that of the reply are two.
pub record IsExchange {R : Type 0} (x : Exchange R) : Type 0 where
  pub blank : x.meta.body_hash ≡ ""
  pub hashed : x.body_hash ≢ ""
  pub faithful : IsFaithful x.format

decoded-some :
    {R : Type 0} {b : Bool} {u : Result R} {r : R} → b ≡ true → u ≡ ok r → decoded b u ≡ some r
decoded-some h e = rw (h, e) refl

-- the other direction
pub decoded_inv :
    {R : Type 0} (b : Bool) (u : Result R) (r : R) → decoded b u ≡ some r → (b ≡ true) × (u ≡ ok r)
decoded_inv true (ok a) r h = (refl, cc)
decoded_inv false (ok a) r h = absurd cc
decoded_inv b (err e) r h = absurd cc

module _ {B : Backend} {R : Type 0} {i : IdempotencyStore} (s : Server B (some i)) (ctx : Context)
    (x : Exchange R) where
  -- What is claimed and kept is answered, whatever the world is.
  pub once-replays :
      {A : Type 0} (site : Site B (some i)) (r : R) (statuses : ℕ → Option ℕ) (call : Exec B A)
      (document : A → R)
      → IsClaimed i x site.kept
      → IsKept i x r site.kept
      → serve (once (some i) s ctx x statuses call document) site ≡ (ok (replied x.success r), site)
  unfolding serve once begin must claim_key replay_record
  once-replays site r statuses call document (meta, found, same) (rec, there, good, text) =
      rw (found, (eq_iff meta.body x.body_hash).1 same, there, decoded-some good text) refl

  -- A key that is claimed for another body is refused.
  pub once-rejects :
      {A : Type 0} (site : Site B (some i)) (statuses : ℕ → Option ℕ) (call : Exec B A)
      (document : A → R) (meta : Record)
      → i.get x.meta site.kept ≡ ok (some meta)
      → meta.body ≢ x.body_hash
      → serve (once (some i) s ctx x statuses call document) site ≡ (ok (key_reuse ctx), site)
  unfolding serve once begin must claim_key
  once-rejects site statuses call document meta found other =
      elim (Bool-cases (meta.body == x.body_hash)) [
        | inl same ↦ absurd (other ((eq_iff meta.body x.body_hash).0 same))
        | inr differs ↦ rw (found, differs) refl
      ]

same_fingerprint_refl : (fp : Fingerprint) → same_fingerprint fp fp ≡ true
same_fingerprint_refl fp = (same_fingerprint_iff fp fp).1 refl

module _ {R : Type 0} {i : IdempotencyStore} (L : IdempotencyLaws i) (x : Exchange R)
    (e : IsExchange x) where
  two_fingerprints : same_fingerprint (response_fingerprint x) x.meta ≡ false
  two_fingerprints = elim (Bool-cases (same_fingerprint (response_fingerprint x) x.meta)) [
    | inl same ↦ absurd (
        e.hashed (
          ap (λ fp. fp.body_hash) ((same_fingerprint_iff (response_fingerprint x) x.meta).0 same)
          ∙ e.blank))
    | inr differs ↦ differs
  ]

  pub put-IsClaimed :
      (rec : Record) (st : i.Store) → rec.body ≡ x.body_hash → IsClaimed i x (i.put x.meta rec st).1
  put-IsClaimed rec st h =
      (rec, L.get-put x.meta x.meta rec st ∙ rw (same_fingerprint_refl x.meta) refl, h)

  pub put-keeps_claim :
      (rec : Record) (st : i.Store)
      → IsClaimed i x st
      → IsClaimed i x (i.put (response_fingerprint x) rec st).1
  put-keeps_claim rec st (meta, found, same) =
      (meta, L.get-put (response_fingerprint x) x.meta rec st ∙ rw two_fingerprints found, same)

  pub put-IsKept :
      (rec : Record) (st : i.Store) (r : R)
      → is_replayable x rec ≡ true
      → x.format.unmarshal rec.body ≡ ok r
      → IsKept i x r (i.put (response_fingerprint x) rec st).1
  put-IsKept rec st r good text =
      let fp = response_fingerprint x in
      (rec, L.get-put fp fp rec st ∙ rw (same_fingerprint_refl fp) refl, good, text)
