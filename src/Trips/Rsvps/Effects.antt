-- ===== src/Trips/Rsvps/Effects.antt =====
-- What SetMyRSVP does to the store of trips.
use eastbay_overland_rally_p.Prelude.{ℤ, ◌≡◌, refl, inl, inr, Option, none, some, arith, Bool-cases}
use eastbay_overland_rally_p.Domain.{Trip, TripId, MemberId, Rsvp, RsvpResponse, same_response}
use eastbay_overland_rally_p.Ports.{ok, err, Failure, Result-cases}
use eastbay_overland_rally_p.Ports.Laws.{TripLaws}
use eastbay_overland_rally_p.Service.{Backend, World}
use eastbay_overland_rally_p.Trips.Access.{load_visible_trip}
use eastbay_overland_rally_p.Trips.Access.Guards.{load_visible_trip-ok}
use eastbay_overland_rally_p.Trips.Voting.{check_open, existing_answer, new_attendance, check_room}
use eastbay_overland_rally_p.Trips.Evolution.{stays, Effect}
use eastbay_overland_rally_p.Trips.Rsvps.{write_rsvp, change_rsvp, answer_rsvp, set_my_rsvp}
use eastbay_overland_rally_p.Trips.Rsvps.Outcome.{voted}

module _ (B : Backend) (T : TripLaws B.trips) (caller : MemberId) (id : TripId)
    (response : RsvpResponse) (w : World B) where
  write-Effect :
      (t : Trip) (att : ℤ)
      → B.trips.get_by_id id w.trips ≡ ok t
      → Effect B id w (write_rsvp B t caller id response att w).1
  unfolding write_rsvp
  write-Effect t att found =
      let v = voted B caller id response w t att in
      elim (Result-cases (B.trips.save v w.trips).0) [
        | inr (x, failed) ↦ inl (ground (arith, T.save_error v w.trips x failed))
        | inl (u, saved) ↦ inr (
          t,
          v,
          found,
          record {
            same_id = refl;
            same_creator = refl;
            same_creation = refl;
            status_allowed = stays t.status;
            still_organized = λ h. h;
          },
          (ground arith, ground arith),
        )
      ]

  change-Effect :
      (t : Trip) (limit : ℤ) (existing : Option Rsvp)
      → B.trips.get_by_id id w.trips ≡ ok t
      → Effect B id w (change_rsvp B t caller id response limit existing w).1
  unfolding change_rsvp
  change-Effect t limit existing found =
      elim (Result-cases (B.rsvps.count_yes_by_trip id w.rsvps)) [
        | inr (x, broken) ↦ rw broken (inl refl)
        | inl (n, counted) ↦
            rw counted
              (elim (Result-cases
                (check_room (new_attendance n existing response) response limit)) [
                  | inr (x, full) ↦ rw full (inl refl)
                  | inl (u, room) ↦
                      rw room (write-Effect t (new_attendance n existing response) found)
                ])
      ]

  answer-Effect :
      (t : Trip) (limit : ℤ) (existing : Option Rsvp)
      → B.trips.get_by_id id w.trips ≡ ok t
      → Effect B id w (answer_rsvp B t caller id response limit existing w).1
  unfolding answer_rsvp
  answer-Effect t limit none found = change-Effect t limit none found
  answer-Effect t limit (some r) found = elim (Bool-cases (same_response r.status response)) [
    | inl same ↦ rw same (inl refl)
    | inr new ↦ rw new (change-Effect t limit (some r) found)
  ]

  pub set_my_rsvp-Effect : Effect B id w (set_my_rsvp B caller id response w).1
  unfolding set_my_rsvp
  set_my_rsvp-Effect = elim (Result-cases (load_visible_trip B caller id w)) [
    | inr (x, hidden) ↦ rw hidden (inl refl)
    | inl (t, seen) ↦ rw seen (elim (Result-cases (check_open t response)) [
      | inr (x, closed) ↦ rw closed (inl refl)
      | inl (limit, opened) ↦
          rw opened (elim (Result-cases (existing_answer (B.rsvps.get id caller w.rsvps))) [
            | inr (x, broken) ↦ rw broken (inl refl)
            | inl (existing, known) ↦
                rw known
                  (answer-Effect t limit existing (load_visible_trip-ok B caller id w t seen).0)
          ])
    ])
  ]

module _ (B : Backend) (caller : MemberId) (id : TripId) (response : RsvpResponse)
    (w : World B) where
  pub set_my_rsvp_refused :
      (e : Failure)
      → load_visible_trip B caller id w ≡ err e
      → set_my_rsvp B caller id response w ≡ (err e, w)
  unfolding set_my_rsvp
  set_my_rsvp_refused e h = rw h refl
