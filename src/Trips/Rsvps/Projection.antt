-- ===== src/Trips/Rsvps/Projection.antt =====
-- The attendance that a trip keeps beside the answers, after SetMyRSVP and after one that fails
-- between its two writes.
use eastbay_overland_rally_p.Prelude.{
  ℕ, ℤ, pos, ◌≡◌, refl, ap, ◌∙◌, inl, inr, false, Option, none, some, arith, eq_iff,
}
use eastbay_overland_rally_p.Domain.{
  Trip, TripId, MemberId, MyRsvp, Rsvp, RsvpResponse, same_response,
}
use eastbay_overland_rally_p.Ports.{Failure, ok, err}
use eastbay_overland_rally_p.Ports.Laws.{TripLaws, RsvpLaws}
use eastbay_overland_rally_p.Service.{Backend, World}
use eastbay_overland_rally_p.Trips.Access.Guards.{load_visible_trip-ok}
use eastbay_overland_rally_p.Trips.Voting.{new_attendance}
use eastbay_overland_rally_p.Trips.Rsvps.{write_rsvp, change_rsvp, answer_rsvp, set_my_rsvp}
use eastbay_overland_rally_p.Trips.Rsvps.Outcome.{answer, voted, Accepted, Changes, set_my_rsvp-ok}
use eastbay_overland_rally_p.Trips.Rsvps.Attendance.{existing-vote, new_attendance-eq}

-- The trip is stored under its identifier, and its attendance is the number of YES answers.
abbrev pub InSync : (B : Backend) → TripId → World B → Type 0
InSync B trip_id w =
    (t : Trip) × (n : ℕ) × (B.trips.get_by_id trip_id w.trips ≡ ok t)
    × (t.id ≡ trip_id)
    × (B.rsvps.count_yes_by_trip trip_id w.rsvps ≡ ok n)
    × (t.attending_rigs ≡ some (pos n))

module _ (B : Backend) (T : TripLaws B.trips) (R : RsvpLaws B.rsvps) (caller : MemberId)
    (trip_id : TripId) (response : RsvpResponse) (w : World B) where
  -- the saved trip is read back under the identifier
  saved-trip :
      (v : Trip)
      → v.id ≡ trip_id
      → (B.trips.save v w.trips).0 ≡ ok tt
      → B.trips.get_by_id trip_id (B.trips.save v w.trips).1 ≡ ok v
  saved-trip v keyed saved =
      T.get-save v w.trips trip_id saved ∙ ground (arith, keyed, eq_iff v.id trip_id)

  changed-InSync :
      (t : Trip) (limit : ℤ) (n : ℕ) (existing : Option Rsvp) (my : MyRsvp) (w' : World B)
      → t.id ≡ trip_id
      → Accepted B caller trip_id response w t limit n existing
      → Changes B caller trip_id response w t (new_attendance n existing response) my w'
      → InSync B trip_id w'
  changed-InSync t limit n existing my w' keyed a c =
      let r = answer B caller trip_id response w in
      let v = voted B caller trip_id response w t (new_attendance n existing response) in
      let (k, counted, e) = R.count-upsert r w.rsvps n c.upserted a.counted in
      let before = existing-vote (B.rsvps.get trip_id caller w.rsvps) existing a.known in
      (
        v,
        k,
        rw c.trips (saved-trip v keyed c.saved),
        keyed,
        rw c.rsvps counted,
        ap some (new_attendance-eq n k existing response (ground (arith, e, before))),
      )

  -- A successful SetMyRSVP keeps the attendance of the trip equal to the number of YES answers.
  pub set_my_rsvp-InSync :
      (my : MyRsvp)
      → (set_my_rsvp B caller trip_id response w).0 ≡ ok my
      → InSync B trip_id w
      → InSync B trip_id (set_my_rsvp B caller trip_id response w).1
  set_my_rsvp-InSync my h (t, n, got, keyed, counted, kept) =
      elim (set_my_rsvp-ok B caller trip_id response w my h) [
        | inl (_, _, _, _, _, still) ↦ rw still (t, n, got, keyed, counted, kept)
        | inr (t', limit, n', existing, a, c) ↦
            let found = (load_visible_trip-ok B caller trip_id w t' a.seen).0 in
            changed-InSync t' limit n' existing my _ (ground (arith, got, found)) a c
      ]

  -- the answer to be written is not the stored one
  abbrev pub IsNew : Option Rsvp → Type 0
  IsNew none = Unit
  IsNew (some r) = same_response r.status response ≡ false

  change-eq-write :
      (t : Trip) (limit : ℤ) (n : ℕ) (existing : Option Rsvp)
      → Accepted B caller trip_id response w t limit n existing
      → IsNew existing
      → set_my_rsvp B caller trip_id response w
        ≡ write_rsvp B t caller trip_id response (new_attendance n existing response) w
  unfolding set_my_rsvp answer_rsvp change_rsvp
  change-eq-write t limit n none a new =
      rw a.seen (rw a.opened (rw a.known (rw a.counted (rw a.room refl))))
  change-eq-write t limit n (some r) a new =
      rw a.seen (rw a.opened (rw a.known (rw new (rw a.counted (rw a.room refl)))))

  -- If the trip is saved and the write of the answer then fails, the call fails with that error, the
  -- answers are as before, and the trip is stored with the attendance of the answer that is missing.
  pub set_my_rsvp_half_done :
      (t : Trip) (limit : ℤ) (n : ℕ) (existing : Option Rsvp) (x : Failure)
      → Accepted B caller trip_id response w t limit n existing
      → IsNew existing
      → t.id ≡ trip_id
      → (B.trips.save
          (voted B caller trip_id response w t (new_attendance n existing response))
          w.trips).0
        ≡ ok tt
      → (B.rsvps.upsert (answer B caller trip_id response w) w.rsvps).0 ≡ err x
      → ((set_my_rsvp B caller trip_id response w).0 ≡ err x)
        × ((set_my_rsvp B caller trip_id response w).1.rsvps ≡ w.rsvps)
        × (B.trips.get_by_id trip_id (set_my_rsvp B caller trip_id response w).1.trips
            ≡ ok (voted B caller trip_id response w t (new_attendance n existing response)))
  unfolding write_rsvp
  set_my_rsvp_half_done t limit n existing x a new keyed saved failed =
      rw (change-eq-write t limit n existing a new) (
        ground arith,
        ground (arith, R.upsert_error (answer B caller trip_id response w) w.rsvps x failed),
        ground (
          arith,
          saved-trip (voted B caller trip_id response w t (new_attendance n existing response))
              keyed saved,
        ),
      )
