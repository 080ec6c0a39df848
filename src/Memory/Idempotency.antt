-- ===== src/Memory/Idempotency.antt =====
-- internal/adapters/memory/idempotency/store.go
use eastbay_overland_rally_p.Prelude.{Option, some, ◌≡◌, arith, if◌then◌else◌}
use eastbay_overland_rally_p.Prelude.Assoc.{Assoc, lookup, insert, lookup-insert}
use eastbay_overland_rally_p.Ports.{ok, Result}
use eastbay_overland_rally_p.Ports.Idempotency.{
  Fingerprint, Record, same_fingerprint, fingerprint_eq, IdempotencyStore, IdempotencyLaws,
}

abbrev pub Store : Type 0
Store = Assoc Fingerprint Record

-- Get: the record, or that there is none
unfoldable pub get : Fingerprint → Store → Result (Option Record)
get fp s = ok (lookup fp s)

-- Put
unfoldable pub put : Fingerprint → Record → Store → Result Unit × Store
put fp rec s = (ok tt, insert fp rec s)

-- A put is replayed under its own fingerprint and leaves every other one as it was.
pub get-put :
    (fp other : Fingerprint) (rec : Record) (s : Store)
    → get other (put fp rec s).1
      ≡ (if same_fingerprint fp other then ok (some rec) else get other s)
unfolding get put
get-put fp other rec s = ground (arith, lookup-insert fp other rec s)

abbrev pub memory_idempotency : IdempotencyStore
memory_idempotency = record { Store = Store; get = get; put = put }

pub memory_idempotency-IdempotencyLaws : IdempotencyLaws memory_idempotency
memory_idempotency-IdempotencyLaws = record { get-put = get-put }
