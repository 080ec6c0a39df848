-- ===== src/Trips/Rsvps/Outcome.antt =====
-- What a successful SetMyRSVP has done: nothing, for an answer that was stored already, or each of
-- its steps.
use eastbay_overland_rally_p.Prelude.{
  ℕ, ◌+◌, ℤ, ◌≡◌, refl, ◌⊎◌, inl, inr, true, Option, none, some, arith, Bool-cases,
}
use eastbay_overland_rally_p.Domain.{
  Trip, TripId, MemberId, MyRsvp, Rsvp, RsvpResponse, same_response, utc,
}
use eastbay_overland_rally_p.Ports.{ok, Result-cases}
use eastbay_overland_rally_p.Service.{Backend, World}
use eastbay_overland_rally_p.Trips.Access.{load_visible_trip}
use eastbay_overland_rally_p.Trips.Voting.{check_open, existing_answer, new_attendance, check_room}
use eastbay_overland_rally_p.Trips.Rsvps.{write_rsvp, change_rsvp, answer_rsvp, set_my_rsvp}

module _ (B : Backend) (caller : MemberId) (trip_id : TripId) (response : RsvpResponse)
    (w : World B) where
  -- the answer that is written, with the second reading of the clock
  abbrev pub answer : Rsvp
  answer = record {
    trip_id = trip_id;
    member_id = caller;
    status = response;
    updated_at = utc (B.now (w.readings + 1));
  }

  abbrev pub reply : Rsvp → MyRsvp
  reply r = record {
    trip_id = trip_id;
    member_id = caller;
    response = r.status;
    updated_at = r.updated_at;
  }

  -- the trip that is saved, with the first reading of the clock
  abbrev pub voted : Trip → ℤ → Trip
  voted t att = record t { attending_rigs = some att; updated_at = utc (B.now w.readings) }

  pub record Changes (t : Trip) (att : ℤ) (my : MyRsvp) (w' : World B) : Type 0 where
    pub saved : (B.trips.save (voted t att) w.trips).0 ≡ ok tt
    pub upserted : (B.rsvps.upsert answer w.rsvps).0 ≡ ok tt
    pub trips : w'.trips ≡ (B.trips.save (voted t att) w.trips).1
    pub rsvps : w'.rsvps ≡ (B.rsvps.upsert answer w.rsvps).1
    pub replied : my ≡ reply answer

  write-ok :
      (t : Trip) (att : ℤ) (my : MyRsvp)
      → (write_rsvp B t caller trip_id response att w).0 ≡ ok my
      → Changes t att my (write_rsvp B t caller trip_id response att w).1
  unfolding write_rsvp
  write-ok t att my h = record {
    saved = ground arith;
    upserted = ground arith;
    trips = ground arith;
    rsvps = ground arith;
    replied = ground arith;
  }

  pub record Accepted (t : Trip) (limit : ℤ) (n : ℕ) (existing : Option Rsvp) : Type 0 where
    pub seen : load_visible_trip B caller trip_id w ≡ ok t
    pub opened : check_open t response ≡ ok limit
    pub known : existing_answer (B.rsvps.get trip_id caller w.rsvps) ≡ ok existing
    pub counted : B.rsvps.count_yes_by_trip trip_id w.rsvps ≡ ok n
    pub room : check_room (new_attendance n existing response) response limit ≡ ok tt

  pub record Stored (t : Trip) (limit : ℤ) (r : Rsvp) : Type 0 where
    pub seen : load_visible_trip B caller trip_id w ≡ ok t
    pub opened : check_open t response ≡ ok limit
    pub got : B.rsvps.get trip_id caller w.rsvps ≡ ok r
    pub same : same_response r.status response ≡ true

  abbrev pub Unchanged : MyRsvp → World B → Type 0
  Unchanged my w' =
      (t : Trip) × (limit : ℤ) × (r : Rsvp) × Stored t limit r × (my ≡ reply r) × (w' ≡ w)

  abbrev pub Changed : MyRsvp → World B → Type 0
  Changed my w' =
      (t : Trip) × (limit : ℤ) × (n : ℕ) × (existing : Option Rsvp) × Accepted t limit n existing
      × Changes t (new_attendance n existing response) my w'

  change-ok :
      (t : Trip) (limit : ℤ) (existing : Option Rsvp) (my : MyRsvp)
      → load_visible_trip B caller trip_id w ≡ ok t
      → check_open t response ≡ ok limit
      → existing_answer (B.rsvps.get trip_id caller w.rsvps) ≡ ok existing
      → (change_rsvp B t caller trip_id response limit existing w).0 ≡ ok my
      → Changed my (change_rsvp B t caller trip_id response limit existing w).1
  unfolding change_rsvp
  change-ok t limit existing my seen opened known h =
      elim (Result-cases (B.rsvps.count_yes_by_trip trip_id w.rsvps)) [
        | inr (x, broken) ↦ absurd (ground arith)
        | inl (n, counted) ↦
            elim (Result-cases (check_room (new_attendance n existing response) response limit)) [
              | inr (x, full) ↦ absurd (ground arith)
              | inl (u, room) ↦ (
                t,
                limit,
                n,
                existing,
                record {
                  seen = seen;
                  opened = opened;
                  known = known;
                  counted = counted;
                  room = room;
                },
                rw counted
                    (rw room (write-ok t (new_attendance n existing response) my (ground arith))),
              )
            ]
      ]

  answer-ok :
      (t : Trip) (limit : ℤ) (existing : Option Rsvp) (my : MyRsvp)
      → load_visible_trip B caller trip_id w ≡ ok t
      → check_open t response ≡ ok limit
      → existing_answer (B.rsvps.get trip_id caller w.rsvps) ≡ ok existing
      → (answer_rsvp B t caller trip_id response limit existing w).0 ≡ ok my
      → Unchanged my (answer_rsvp B t caller trip_id response limit existing w).1
        ⊎ Changed my (answer_rsvp B t caller trip_id response limit existing w).1
  unfolding answer_rsvp
  answer-ok t limit none my seen opened known h =
      inr (change-ok t limit none my seen opened known h)
  answer-ok t limit (some r) my seen opened known h =
      elim (Bool-cases (same_response r.status response)) [
        | inl same ↦ rw same (
            inl (
              t,
              limit,
              r,
              record { seen = seen; opened = opened; got = ground arith; same = same },
              ground arith,
              refl,
            ))
        | inr new ↦ rw new (inr (change-ok t limit (some r) my seen opened known (ground arith)))
      ]

  pub set_my_rsvp-ok :
      (my : MyRsvp)
      → (set_my_rsvp B caller trip_id response w).0 ≡ ok my
      → Unchanged my (set_my_rsvp B caller trip_id response w).1
        ⊎ Changed my (set_my_rsvp B caller trip_id response w).1
  unfolding set_my_rsvp
  set_my_rsvp-ok my h = elim (Result-cases (load_visible_trip B caller trip_id w)) [
    | inr (x, hidden) ↦ absurd (ground arith)
    | inl (t, seen) ↦ elim (Result-cases (check_open t response)) [
      | inr (x, closed) ↦ absurd (ground arith)
      | inl (limit, opened) ↦
          elim (Result-cases (existing_answer (B.rsvps.get trip_id caller w.rsvps))) [
            | inr (x, broken) ↦ absurd (ground arith)
            | inl (existing, known) ↦ rw seen (
                rw opened
                  (rw known (answer-ok t limit existing my seen opened known (ground arith))))
          ]
    ]
  ]
