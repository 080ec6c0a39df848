-- ===== src/Ports/Idempotency.antt =====
-- internal/ports/out/idempotency/store.go: the replies that the server keeps for a repeated request.
use eastbay_overland_rally_p.Prelude.{
  ℤ, String, Option, some, ◌≡◌, ◌↔◌, Bool, true, ◌&&◌, arith, Eq, ◌==◌, string_eq, eq_iff,
  if◌then◌else◌,
}
use eastbay_overland_rally_p.Domain.{SubjectId, Time}
use eastbay_overland_rally_p.Ports.{Result, ok}

-- the key of the caller, and what it is used for
pub record Fingerprint : Type 0 where
  pub key : String
  pub subject : SubjectId
  pub method : String
  pub route : String
  pub body_hash : String

pub record Record : Type 0 where
  pub status_code : ℤ
  pub content_type : String
  pub body : String  -- the text of the bytes
  pub created_at : Time

-- `==` on the struct, as the map compares its keys
abbrev pub same_fingerprint : Fingerprint → Fingerprint → Bool
same_fingerprint a b =
    a.key == b.key
    && a.subject == b.subject
    && a.method == b.method
    && a.route == b.route
    && a.body_hash == b.body_hash

pub same_fingerprint_iff : (a b : Fingerprint) → (same_fingerprint a b ≡ true) ↔ (a ≡ b)
same_fingerprint_iff a b = ground (
  arith,
  eq_iff a.key b.key,
  eq_iff a.subject b.subject,
  eq_iff a.method b.method,
  eq_iff a.route b.route,
  eq_iff a.body_hash b.body_hash,
)

instance abbrev pub fingerprint_eq : Eq Fingerprint
fingerprint_eq = record { same = same_fingerprint; same_iff = same_fingerprint_iff }

-- Get, and Put with the store that it leaves
pub record IdempotencyStore : Type 1 where
  pub Store : Type 0
  pub get : Fingerprint → Store → Result (Option Record)
  pub put : Fingerprint → Record → Store → Result Unit × Store

-- What a store that works does: a record is found under its own fingerprint from then on, and the
-- records under the other fingerprints stay as they were.
pub record IdempotencyLaws (I : IdempotencyStore) : Type 0 where
  pub get-put :
      (fp other : Fingerprint) (rec : Record) (s : I.Store)
      → I.get other (I.put fp rec s).1
        ≡ (if same_fingerprint fp other then ok (some rec) else I.get other s)
