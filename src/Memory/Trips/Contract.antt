-- ===== src/Memory/Trips/Contract.antt =====
-- The trip repository in memory and the laws of its port.
use eastbay_overland_rally_p.Prelude.{◌≡◌, ◌==◌, string_eq, arith, if◌then◌else◌}
use eastbay_overland_rally_p.Prelude.Assoc.{lookup-insert}
use eastbay_overland_rally_p.Domain.{Trip, TripId}
use eastbay_overland_rally_p.Ports.{Failure, ok, err, trip_not_found}
use eastbay_overland_rally_p.Ports.Laws.{TripLaws}
use eastbay_overland_rally_p.Memory.Trips.{TripStore, memory_trips, create, save, get_by_id}

get-save_lem :
    (t : Trip) (s : TripStore) (id : TripId)
    → (save t s).0 ≡ ok tt
    → get_by_id id (save t s).1 ≡ (if t.id == id then ok t else get_by_id id s)
unfolding save get_by_id
get-save_lem t s id h = ground (arith, lookup-insert t.id id t s)

save_error_lem : (t : Trip) (s : TripStore) (e : Failure) → (save t s).0 ≡ err e → (save t s).1 ≡ s
unfolding save
save_error_lem t s e h = ground arith

get-create_lem :
    (t : Trip) (s : TripStore) (id : TripId)
    → (create t s).0 ≡ ok tt
    → (get_by_id t.id s ≡ err trip_not_found)
      × (get_by_id id (create t s).1 ≡ (if t.id == id then ok t else get_by_id id s))
unfolding create get_by_id
get-create_lem t s id h = ground (arith, lookup-insert t.id id t s)

create_error_lem :
    (t : Trip) (s : TripStore) (e : Failure) → (create t s).0 ≡ err e → (create t s).1 ≡ s
unfolding create
create_error_lem t s e h = ground arith

-- A save or a create that succeeds is read back under the trip's identifier and changes no other
-- read, a create succeeds only for an identifier that is not stored, and one that fails leaves the
-- store as it was.
pub memory_trips-TripLaws : TripLaws memory_trips
memory_trips-TripLaws = record {
  get-save = get-save_lem;
  get-create = get-create_lem;
  create_error = create_error_lem;
  save_error = save_error_lem;
}
