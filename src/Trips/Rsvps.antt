-- ===== src/Trips/Rsvps.antt =====
-- SetMyRSVP of service.go.
pub mod Errors
pub mod Outcome
pub mod Attendance
pub mod Replies
pub mod Projection
pub mod Effects
pub mod Examples
use eastbay_overland_rally_p.Prelude.{ℤ, Option, none, some, if◌then◌else◌}
use eastbay_overland_rally_p.Domain.{
  Trip, TripId, MemberId, MyRsvp, Rsvp, RsvpResponse, same_response,
}
use eastbay_overland_rally_p.Service.{
  Backend, Exec, pure, lift, reads, ◌>>=◌, ◌>>◌, read_clock, save_trip, upsert_rsvp,
}
use eastbay_overland_rally_p.Trips.Access.{load_visible_trip}
use eastbay_overland_rally_p.Trips.Voting.{check_open, existing_answer, new_attendance, check_room}

module _ (B : Backend) where
  -- from `tAtt := newAtt` on: the trip is saved, then the answer
  write_rsvp : Trip → MemberId → TripId → RsvpResponse → ℤ → Exec B MyRsvp
  write_rsvp t caller trip_id response att = do
    at ← read_clock
    save_trip (record t { attending_rigs = some att; updated_at = at })
    now ← read_clock
    upsert_rsvp
        (record { trip_id = trip_id; member_id = caller; status = response; updated_at = now })
    pure (record { trip_id = trip_id; member_id = caller; response = response; updated_at = now })

  -- from the second test on, for an answer that is not the stored one
  change_rsvp : Trip → MemberId → TripId → RsvpResponse → ℤ → Option Rsvp → Exec B MyRsvp
  change_rsvp t caller trip_id response cap existing = do
    cur_att ← reads (λ w. B.rsvps.count_yes_by_trip trip_id w.rsvps)
    let new_att = new_attendance cur_att existing response
    lift (check_room new_att response cap)
    write_rsvp t caller trip_id response new_att

  answer_rsvp : Trip → MemberId → TripId → RsvpResponse → ℤ → Option Rsvp → Exec B MyRsvp
  answer_rsvp t caller trip_id response cap none = change_rsvp t caller trip_id response cap none
  answer_rsvp t caller trip_id response cap (some existing) =
      if same_response existing.status response
      then pure (record {
        trip_id = trip_id;
        member_id = caller;
        response = existing.status;
        updated_at = existing.updated_at;
      })
      else change_rsvp t caller trip_id response cap (some existing)

  pub set_my_rsvp : MemberId → TripId → RsvpResponse → Exec B MyRsvp
  set_my_rsvp caller trip_id response = do
    t ← reads (load_visible_trip B caller trip_id)
    cap ← lift (check_open t response)
    existing ← reads (λ w. existing_answer (B.rsvps.get trip_id caller w.rsvps))
    answer_rsvp t caller trip_id response cap existing
