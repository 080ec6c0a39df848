-- ===== src/Trips/Queries/Hidden.antt =====
-- The reading methods on a trip that the lookup refuses.
use eastbay_overland_rally_p.Prelude.{◌≡◌, refl}
use eastbay_overland_rally_p.Domain.{TripId, MemberId}
use eastbay_overland_rally_p.Ports.{Failure, err}
use eastbay_overland_rally_p.Service.{Backend, World}
use eastbay_overland_rally_p.Trips.Access.{load_visible_trip}
use eastbay_overland_rally_p.Trips.Queries.{
  get_trip_details, get_my_rsvp_for_trip, get_trip_rsvp_summary,
}

module _ (B : Backend) (caller : MemberId) (id : TripId) (w : World B) (e : Failure) where
  -- The error of the lookup is the answer of each method.
  pub queries_refused :
      load_visible_trip B caller id w ≡ err e
      → (get_trip_details B caller id w ≡ err e)
        × (get_my_rsvp_for_trip B caller id w ≡ err e)
        × (get_trip_rsvp_summary B caller id w ≡ err e)
  unfolding get_trip_details get_my_rsvp_for_trip get_trip_rsvp_summary
  queries_refused h = (rw h refl, rw h refl, rw h refl)
