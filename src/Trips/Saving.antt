-- ===== src/Trips/Saving.antt =====
-- How the methods of service.go that change a trip end.
use eastbay_overland_rally_p.Domain.{Trip, TripDetails}
use eastbay_overland_rally_p.Service.{Backend, Exec, reads, ◌>>=◌, ◌>>◌, read_clock, save_trip}
use eastbay_overland_rally_p.Trips.Views.{trip_details_for_trip}

module _ (B : Backend) where
  -- "t.UpdatedAt = time.Now().UTC()", the save and the reply, with which most methods end
  abbrev pub save_and_show : Trip → Exec B TripDetails
  save_and_show t = do
    now ← read_clock
    let t' = record t { updated_at = now }
    save_trip t'
    reads (trip_details_for_trip B t')
