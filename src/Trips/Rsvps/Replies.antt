-- ===== src/Trips/Rsvps/Replies.antt =====
-- What a member reads back after SetMyRSVP, and what a repeated SetMyRSVP does.
use eastbay_overland_rally_p.Prelude.{
  ℤ, pos, ◌≤ℤ◌, ◌≡◌, refl, inl, inr, true, some, arith, ◌∙◌, eq_iff, string_eq,
}
use eastbay_overland_rally_p.Domain.{
  Trip, TripId, MemberId, MyRsvp, Rsvp, RsvpResponse, same_response, published,
}
use eastbay_overland_rally_p.Ports.{ok}
use eastbay_overland_rally_p.Ports.Laws.{TripLaws, RsvpLaws}
use eastbay_overland_rally_p.Service.{Backend, World}
use eastbay_overland_rally_p.Trips.Access.{load_visible_trip, is_trip_visible_to_caller}
use eastbay_overland_rally_p.Trips.Access.Guards.{load_visible_trip-ok, load_visible_trip_found}
use eastbay_overland_rally_p.Trips.Voting.{check_open}
use eastbay_overland_rally_p.Trips.Queries.{get_my_rsvp_for_trip}
use eastbay_overland_rally_p.Trips.Rsvps.{answer_rsvp, set_my_rsvp}
use eastbay_overland_rally_p.Trips.Rsvps.Outcome.{answer, reply, voted, Changes, set_my_rsvp-ok}

pub check_open-ok :
    (t : Trip) (response : RsvpResponse) (c : ℤ)
    → check_open t response ≡ ok c
    → (t.status ≡ published) × (t.capacity_rigs ≡ some c) × (pos 1 ≤ℤ c)
unfolding check_open
check_open-ok t response c h = ground arith

check_open-voted :
    (B : Backend) (caller : MemberId) (trip_id : TripId) (response : RsvpResponse) (w : World B)
    (t : Trip) (att : ℤ)
    → check_open (voted B caller trip_id response w t att) response ≡ check_open t response
unfolding check_open
check_open-voted B caller trip_id response w t att = refl

published-visible :
    (t : Trip) (caller : MemberId)
    → t.status ≡ published
    → is_trip_visible_to_caller t caller ≡ true
unfolding is_trip_visible_to_caller
published-visible t caller h = ground arith

same_response_refl : (r : RsvpResponse) → same_response r r ≡ true
same_response_refl (RsvpResponse.rsvp_other s) = (eq_iff s s).1 refl
same_response_refl RsvpResponse.rsvp_yes = refl
same_response_refl RsvpResponse.rsvp_no = refl
same_response_refl RsvpResponse.rsvp_unset = refl

module _ (B : Backend) (T : TripLaws B.trips) (R : RsvpLaws B.rsvps) (caller : MemberId)
    (trip_id : TripId) (response : RsvpResponse) (w : World B) where
  -- The trips read under an identifier carry it.
  abbrev pub IsKeyed : Type 0
  IsKeyed = (t : Trip) → B.trips.get_by_id trip_id w.trips ≡ ok t → t.id ≡ trip_id

  -- after a call that changed the answer, the caller sees the saved trip and the written answer
  changed-trip :
      (t : Trip) (limit att : ℤ) (my : MyRsvp) (w' : World B)
      → IsKeyed
      → load_visible_trip B caller trip_id w ≡ ok t
      → check_open t response ≡ ok limit
      → Changes B caller trip_id response w t att my w'
      → load_visible_trip B caller trip_id w' ≡ ok (voted B caller trip_id response w t att)
  changed-trip t limit att my w' keyed seen opened c =
      let v = voted B caller trip_id response w t att in
      let open_ = check_open-ok t response limit opened in
      let (found, _) = load_visible_trip-ok B caller trip_id w t seen in
      let read = T.get-save v w.trips trip_id c.saved in
      load_visible_trip_found B caller trip_id w' v
        (rw c.trips (read ∙ ground (arith, keyed t found, eq_iff t.id trip_id)))
        (published-visible v caller open_.0)

  changed-answer :
      (t : Trip) (att : ℤ) (my : MyRsvp) (w' : World B)
      → Changes B caller trip_id response w t att my w'
      → B.rsvps.get trip_id caller w'.rsvps ≡ ok (answer B caller trip_id response w)
  changed-answer t att my w' c = rw c.rsvps (
      R.get-upsert (answer B caller trip_id response w) w.rsvps trip_id caller c.upserted
      ∙ ground (arith, eq_iff trip_id trip_id, eq_iff caller caller))

  repeated :
      (t : Trip) (limit : ℤ) (r : Rsvp) (w' : World B)
      → load_visible_trip B caller trip_id w' ≡ ok t
      → check_open t response ≡ ok limit
      → B.rsvps.get trip_id caller w'.rsvps ≡ ok r
      → same_response r.status response ≡ true
      → set_my_rsvp B caller trip_id response w' ≡ (ok (reply B caller trip_id response w r), w')
  unfolding set_my_rsvp answer_rsvp
  repeated t limit r w' seen opened got same = rw seen (rw opened (rw got (rw same refl)))

  read_back :
      (t : Trip) (limit : ℤ) (r : Rsvp) (w' : World B)
      → load_visible_trip B caller trip_id w' ≡ ok t
      → check_open t response ≡ ok limit
      → B.rsvps.get trip_id caller w'.rsvps ≡ ok r
      → get_my_rsvp_for_trip B caller trip_id w' ≡ ok (reply B caller trip_id response w r)
  unfolding get_my_rsvp_for_trip
  read_back t limit r w' seen opened got = ground (arith, check_open-ok t response limit opened)

  -- After a successful SetMyRSVP of a trip that carries its identifier, setting the same answer again
  -- succeeds with the same reply and leaves the world as it is.
  pub set_my_rsvp_idem :
      (my : MyRsvp)
      → IsKeyed
      → (set_my_rsvp B caller trip_id response w).0 ≡ ok my
      → set_my_rsvp B caller trip_id response (set_my_rsvp B caller trip_id response w).1
        ≡ (ok my, (set_my_rsvp B caller trip_id response w).1)
  set_my_rsvp_idem my keyed h = elim (set_my_rsvp-ok B caller trip_id response w my h) [
    | inl (t, limit, r, s, replied, still) ↦ rw still (λ i. (h i, still i))
    | inr (t, limit, n, existing, a, c) ↦
        let v = voted B caller trip_id response w t _ in
        rw (c.replied) (
          repeated v limit _ _ (changed-trip t limit _ my _ keyed a.seen a.opened c)
            (check_open-voted B caller trip_id response w t _ ∙ a.opened)
            (changed-answer t _ my _ c) (same_response_refl response))
  ]

  -- After a successful SetMyRSVP of a trip that carries its identifier, the caller reads back the
  -- reply that the call returned.
  pub get_my_rsvp_for_trip-set_my_rsvp :
      (my : MyRsvp)
      → IsKeyed
      → (set_my_rsvp B caller trip_id response w).0 ≡ ok my
      → get_my_rsvp_for_trip B caller trip_id (set_my_rsvp B caller trip_id response w).1 ≡ ok my
  get_my_rsvp_for_trip-set_my_rsvp my keyed h =
      elim (set_my_rsvp-ok B caller trip_id response w my h) [
        | inl (t, limit, r, s, replied, still) ↦
            rw (still, replied) (read_back t limit r w s.seen s.opened s.got)
        | inr (t, limit, n, existing, a, c) ↦ rw (c.replied) (
            read_back _ limit _ _ (changed-trip t limit _ my _ keyed a.seen a.opened c)
              (check_open-voted B caller trip_id response w t _ ∙ a.opened)
              (changed-answer t _ my _ c))
      ]
