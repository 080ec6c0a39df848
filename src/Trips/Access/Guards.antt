-- ===== src/Trips/Access/Guards.antt =====
-- What the lookups with their guards return.
use eastbay_overland_rally_p.Prelude.{true, false, ◌≡◌, ◌⊎◌, arith}
use eastbay_overland_rally_p.Domain.{Trip, TripId, MemberId}
use eastbay_overland_rally_p.Ports.{ok, err}
use eastbay_overland_rally_p.Service.{Backend, World}
use eastbay_overland_rally_p.Trips.Types.{no_such_trip}
use eastbay_overland_rally_p.Trips.Access.{
  is_trip_visible_to_caller, is_organizer, load_trip, load_visible_trip, load_organized_trip,
}

module _ (B : Backend) (caller : MemberId) (id : TripId) (w : World B) (t : Trip) where
  pub load_trip_found : B.trips.get_by_id id w.trips ≡ ok t → load_trip B id w ≡ ok t
  unfolding load_trip
  load_trip_found h = ground arith

  pub load_visible_trip-cases :
      B.trips.get_by_id id w.trips ≡ ok t
      → ((is_trip_visible_to_caller t caller ≡ true) × (load_visible_trip B caller id w ≡ ok t))
        ⊎ ((is_trip_visible_to_caller t caller ≡ false)
            × (load_visible_trip B caller id w ≡ err no_such_trip))
  unfolding load_visible_trip
  load_visible_trip-cases h = ground arith

  pub load_visible_trip_found :
      B.trips.get_by_id id w.trips ≡ ok t
      → is_trip_visible_to_caller t caller ≡ true
      → load_visible_trip B caller id w ≡ ok t
  unfolding load_visible_trip
  load_visible_trip_found h v = ground arith

  -- What a successful lookup says.
  pub load_visible_trip-ok :
      load_visible_trip B caller id w ≡ ok t
      → (B.trips.get_by_id id w.trips ≡ ok t) × (is_trip_visible_to_caller t caller ≡ true)
  unfolding load_visible_trip
  load_visible_trip-ok h = ground arith

  pub load_organized_trip-ok :
      load_organized_trip B caller id w ≡ ok t
      → (B.trips.get_by_id id w.trips ≡ ok t)
        × (is_trip_visible_to_caller t caller ≡ true)
        × (is_organizer t caller ≡ true)
  unfolding load_organized_trip
  load_organized_trip-ok h = ground arith

  pub load_trip-ok : load_trip B id w ≡ ok t → B.trips.get_by_id id w.trips ≡ ok t
  unfolding load_trip
  load_trip-ok h = ground arith
