-- ===== src/Trips/Rsvps/Attendance.antt =====
-- What SetMyRSVP does to the stored answers and to the attendance kept on the trip.
use eastbay_overland_rally_p.Prelude.{
  ℕ, ◌+◌, ℤ, pos, ◌≤ℤ◌, ◌≡◌, ◌∙◌, ap, ◌⊎◌, inl, inr, Option, none, some, arith, true, false,
  Bool-cases,
}
use eastbay_overland_rally_p.Domain.{
  Trip, TripId, MemberId, Rsvp, RsvpResponse, is_yes, same_response, utc,
}
use eastbay_overland_rally_p.Ports.{Result, ok, Result-cases}
use eastbay_overland_rally_p.Ports.Laws.{RsvpLaws, yes_vote}
use eastbay_overland_rally_p.Service.{Backend, World}
use eastbay_overland_rally_p.Trips.Access.Guards.{load_visible_trip-cases}
use eastbay_overland_rally_p.Trips.Voting.{check_open, existing_answer, new_attendance, check_room}
use eastbay_overland_rally_p.Trips.Rsvps.{write_rsvp, change_rsvp, answer_rsvp, set_my_rsvp}

abbrev pub vote : Option Rsvp → ℕ
vote none = 0
vote (some r) = yes_vote (ok r)

-- The attendance that SetMyRSVP computes is the count after the answer.
pub new_attendance-eq :
    (n k : ℕ) (existing : Option Rsvp) (target : RsvpResponse)
    → k + vote existing ≡ n + (elim (is_yes target) [ true ↦ 1 | false ↦ 0 ])
    → new_attendance n existing target ≡ pos k
unfolding new_attendance
new_attendance-eq n k existing target h = ground arith

pub existing-vote :
    (r : Result Rsvp) (existing : Option Rsvp)
    → existing_answer r ≡ ok existing
    → yes_vote r ≡ vote existing
existing-vote r existing h = ground arith

check_open-limit :
    (t : Trip) (response : RsvpResponse) (c limit : ℤ)
    → t.capacity_rigs ≡ some limit
    → check_open t response ≡ ok c
    → c ≡ limit
unfolding check_open
check_open-limit t response c limit has h = ground arith

module _ (B : Backend) (R : RsvpLaws B.rsvps) (caller : MemberId) (trip_id : TripId)
    (response : RsvpResponse) where
  -- the answer that is written with the second reading of the clock
  abbrev pub answer : World B → Rsvp
  answer w = record {
    trip_id = trip_id;
    member_id = caller;
    status = response;
    updated_at = utc (B.now (w.readings + 1));
  }

  write-rsvps :
      (w : World B) (t : Trip) (att : ℤ)
      → ((write_rsvp B t caller trip_id response att w).1.rsvps ≡ w.rsvps)
        ⊎ (((B.rsvps.upsert (answer w) w.rsvps).0 ≡ ok tt)
            × ((write_rsvp B t caller trip_id response att w).1.rsvps
                ≡ (B.rsvps.upsert (answer w) w.rsvps).1))
  unfolding write_rsvp
  write-rsvps w t att = elim (Result-cases (B.rsvps.upsert (answer w) w.rsvps).0) [
    | inl (u, e) ↦ ground arith
    | inr (x, e) ↦ ground (arith, R.upsert_error (answer w) w.rsvps x e)
  ]

  -- The count of YES answers is known and within the capacity.
  abbrev pub Fits : ℤ → B.rsvps.Store → Type 0
  Fits limit s = (k : ℕ) × (B.rsvps.count_yes_by_trip trip_id s ≡ ok k) × (pos k ≤ℤ limit)

  upsert-Fits :
      (w : World B) (limit : ℤ) (existing : Option Rsvp) (n : ℕ)
      → (B.rsvps.upsert (answer w) w.rsvps).0 ≡ ok tt
      → existing_answer (B.rsvps.get trip_id caller w.rsvps) ≡ ok existing
      → B.rsvps.count_yes_by_trip trip_id w.rsvps ≡ ok n
      → pos n ≤ℤ limit
      → check_room (new_attendance n existing response) response limit ≡ ok tt
      → Fits limit (B.rsvps.upsert (answer w) w.rsvps).1
  upsert-Fits w limit existing n u g c f room =
      let (k, c', e) = R.count-upsert (answer w) w.rsvps n u c in
      let v = existing-vote (B.rsvps.get trip_id caller w.rsvps) existing g in
      let a = new_attendance-eq n k existing response (ground (arith, e, v)) in
      (k, c', unfold check_room in ground (arith, e, v, a, room))

  change-Fits :
      (w : World B) (t : Trip) (limit : ℤ) (existing : Option Rsvp)
      → existing_answer (B.rsvps.get trip_id caller w.rsvps) ≡ ok existing
      → Fits limit w.rsvps
      → Fits limit (change_rsvp B t caller trip_id response limit existing w).1.rsvps
  unfolding change_rsvp
  change-Fits w t limit existing g (n, c, f) =
      elim (Result-cases (check_room (new_attendance n existing response) response limit)) [
        | inr (x, full) ↦ rw c (rw full (n, c, f))
        | inl (u, room) ↦ rw c (
            rw room (elim (write-rsvps w t (new_attendance n existing response)) [
              | inl same ↦ rw same (n, c, f)
              | inr (done, new) ↦ rw new (upsert-Fits w limit existing n done g c f room)
            ]))
      ]

  answer-Fits :
      (w : World B) (t : Trip) (limit : ℤ) (existing : Option Rsvp)
      → existing_answer (B.rsvps.get trip_id caller w.rsvps) ≡ ok existing
      → Fits limit w.rsvps
      → Fits limit (answer_rsvp B t caller trip_id response limit existing w).1.rsvps
  unfolding answer_rsvp
  answer-Fits w t limit none g h = change-Fits w t limit none g h
  answer-Fits w t limit (some r) g h = elim (Bool-cases (same_response r.status response)) [
    | inl same ↦ rw same h
    | inr new ↦ rw new (change-Fits w t limit (some r) g h)
  ]

  -- For every answer, and whether the call succeeds or fails at any point: if the number of YES
  -- answers of the trip was known and at most the capacity that the trip has, it still is.
  pub set_my_rsvp-Fits :
      (w : World B) (t : Trip) (limit : ℤ)
      → B.trips.get_by_id trip_id w.trips ≡ ok t
      → t.capacity_rigs ≡ some limit
      → Fits limit w.rsvps
      → Fits limit (set_my_rsvp B caller trip_id response w).1.rsvps
  unfolding set_my_rsvp
  set_my_rsvp-Fits w t limit found has h =
      elim (load_visible_trip-cases B caller trip_id w t found) [
        | inr (_, hidden) ↦ rw hidden h
        | inl (_, seen) ↦ rw seen (elim (Result-cases (check_open t response)) [
          | inr (x, closed) ↦ rw closed h
          | inl (c, opened) ↦
              rw (opened ∙ ap ok (check_open-limit t response c limit has opened))
                (elim (Result-cases (existing_answer (B.rsvps.get trip_id caller w.rsvps))) [
                  | inr (x, broken) ↦ rw broken h
                  | inl (existing, known) ↦ rw known (answer-Fits w t limit existing known h)
                ])
        ])
      ]
