-- ===== src/Http/Idempotent.antt =====
-- internal/adapters/httpapi/server.go, "Idempotency handling (v1)", which eight handlers repeat: the
-- key is claimed for one hash of the body, a reply that is kept under the key and the hash is
-- returned again, and the reply of a call that succeeds is kept.
use eastbay_overland_rally_p.Prelude.{
  ℕ, ℤ, pos, negsuc, String, Bool, false, Option, none, some, ◌&&◌, ◌==◌, nat_eq, string_eq, ◌+◌,
  if◌then◌else◌,
}
use eastbay_overland_rally_p.Text.{has_prefix}
use eastbay_overland_rally_p.Domain.{utc}
use eastbay_overland_rally_p.Ports.{Result, ok, err}
use eastbay_overland_rally_p.Ports.Idempotency.{Fingerprint, Record, IdempotencyStore}
use eastbay_overland_rally_p.Service.{Backend, Exec}
use eastbay_overland_rally_p.Http.Codec.{Format}
use eastbay_overland_rally_p.Http.Handler.{
  Context, Reply, replied, key_reuse, Server, Handler, pass, reply, must, perform, ◌>>=◌, ◌>>◌,
}

-- What identifies a request, and how its reply is written: metaFP, whose hash is empty, the hash of
-- the body, the status of success and the format of the reply.
pub record Exchange (R : Type 0) : Type 0 where
  pub meta : Fingerprint
  pub body_hash : String
  pub success : ℕ
  pub format : Format R

-- respFP
abbrev pub response_fingerprint : {R : Type 0} → Exchange R → Fingerprint
response_fingerprint x = record x.meta { body_hash = x.body_hash }

abbrev pub is_status : ℤ → ℕ → Bool
is_status (pos n) k = n == k
is_status (negsuc n) k = false

-- a record that can be replayed: the status of success, JSON, and a text that can be read
abbrev pub is_replayable : {R : Type 0} → Exchange R → Record → Bool
is_replayable x rec =
    is_status rec.status_code x.success && has_prefix rec.content_type "application/json"

abbrev pub decoded : {R : Type 0} → Bool → Result R → Option R
decoded b (err e) = none
decoded b (ok payload) = if b then some payload else none

module _ {B : Backend} {R : Type 0} where
  module _ (i : IdempotencyStore) where
    -- `_ = s.Idem.Put(...)`: an error is dropped
    abbrev pub put_record :
        Server B (some i) → Fingerprint → ℕ → String → String → Handler B (some i) R Unit
    put_record s fp status content_type text site = pass tt (record site {
      kept =
          (i.put fp
            (record {
              status_code = pos status;
              content_type = content_type;
              body = text;
              created_at = utc (s.now site.ticks);
            })
            site.kept).1;
      ticks = site.ticks + 1;
    })

    abbrev pub get_record : Fingerprint → Handler B (some i) R (Option Record)
    get_record fp site = must (i.get fp site.kept) site

    unfoldable pub claim_key :
        Server B (some i) → Context → Exchange R → Option Record → Handler B (some i) R Unit
    claim_key s ctx x none = put_record s x.meta 0 "text/plain" x.body_hash
    claim_key s ctx x (some meta) =
        if meta.body == x.body_hash then pass tt else reply (key_reuse ctx)

    abbrev pub replay_payload : Exchange R → Option R → Handler B (some i) R Unit
    replay_payload x none = pass tt
    replay_payload x (some payload) = reply (replied x.success payload)

    unfoldable pub replay_record : Exchange R → Option Record → Handler B (some i) R Unit
    replay_record x none = pass tt
    replay_record x (some rec) =
        replay_payload x (decoded (is_replayable x rec) (x.format.unmarshal rec.body))

  -- the block before the call
  unfoldable pub begin :
      (idem : Option IdempotencyStore)
      → Server B idem
      → Context
      → Exchange R
      → Handler B idem R Unit
  begin none s ctx x = pass tt
  begin (some i) s ctx x = do
    meta ← get_record i x.meta
    claim_key i s ctx x meta
    rec ← get_record i (response_fingerprint x)
    replay_record i x rec

  abbrev pub keep_text :
      (i : IdempotencyStore)
      → Server B (some i)
      → Exchange R
      → Result String
      → Handler B (some i) R Unit
  keep_text i s x (err e) = pass tt
  keep_text i s x (ok text) =
      put_record i s (response_fingerprint x) x.success "application/json" text

  -- the block after the call: "Store successful response for replay."
  unfoldable pub keep :
      (idem : Option IdempotencyStore) → Server B idem → Exchange R → R → Handler B idem R Unit
  keep none s x resp = pass tt
  keep (some i) s x resp = keep_text i s x (x.format.marshal resp)

  module _ {A : Type 0} (idem : Option IdempotencyStore) where
    -- a handler from the idempotency block to its end
    unfoldable pub once :
        Server B idem
        → Context
        → Exchange R
        → (ℕ → Option ℕ)
        → Exec B A
        → (A → R)
        → Handler B idem R (Reply R)
    once s ctx x statuses call document = do
      begin idem s ctx x
      a ← perform ctx statuses call
      let resp = document a
      keep idem s x resp
      pass (replied x.success resp)

    -- the same without an idempotency key
    unfoldable pub plainly :
        Context → ℕ → (ℕ → Option ℕ) → Exec B A → (A → R) → Handler B idem R (Reply R)
    plainly ctx success statuses call document = do
      a ← perform ctx statuses call
      pass (replied success (document a))
