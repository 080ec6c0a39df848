-- ===== src/Trips/Rsvps/Errors.antt =====
-- The errors of SetMyRSVP.
use eastbay_overland_rally_p.Prelude.{
  ℤ, pos, ltb_ℤ, not, ◌&&◌, [], Option, none, some, refl, inl, inr, Bool-cases,
}
use eastbay_overland_rally_p.Domain.{
  Trip, TripId, MemberId, Rsvp, RsvpResponse, same_response, is_yes, is_published,
}
use eastbay_overland_rally_p.Ports.{
  Result, ok, err, require, app, backend, trip_not_found, trip_already_exists, member_not_found,
  subject_already_bound, member_already_exists, rsvp_not_found,
}
use eastbay_overland_rally_p.Ports.Errors.{statuses, Within, foreign, require-Within, bind-Within}
use eastbay_overland_rally_p.Service.{Backend, lift, reads, read_clock}
use eastbay_overland_rally_p.Service.Errors.{Throws, always, returns, bind-Throws, ForeignErrors}
use eastbay_overland_rally_p.Trips.Errors.{load_visible_trip-Within, save_trip-Throws}
use eastbay_overland_rally_p.Service.{save_trip, upsert_rsvp}
use eastbay_overland_rally_p.Trips.Access.{load_visible_trip}
use eastbay_overland_rally_p.Trips.Voting.{
  not_published, invalid_response, at_capacity, capacity_of, is_known, check_open, existing_answer,
  new_attendance, check_room,
}
use eastbay_overland_rally_p.Trips.Rsvps.{write_rsvp, change_rsvp, answer_rsvp, set_my_rsvp}

capacity_of-Within : (c : Option ℤ) → Within statuses (capacity_of c)
capacity_of-Within none = refl
capacity_of-Within (some cap) = elim (Bool-cases (ltb_ℤ cap (pos 1))) [
  | inl small ↦ rw small refl
  | inr enough ↦ rw enough tt
]

check_open-Within : (t : Trip) (r : RsvpResponse) → Within statuses (check_open t r)
unfolding check_open
check_open-Within t r =
    bind-Within statuses (require (is_published t.status) not_published) _
      (require-Within statuses (is_published t.status) not_published refl)
      λ u.
        bind-Within statuses (capacity_of t.capacity_rigs) _ (capacity_of-Within t.capacity_rigs)
          λ cap.
            bind-Within statuses (require (is_known r) invalid_response) _
              (require-Within statuses (is_known r) invalid_response refl) (λ v. tt)

check_room-Within : (att : ℤ) (r : RsvpResponse) (cap : ℤ) → Within statuses (check_room att r cap)
unfolding check_room
check_room-Within att r cap =
    require-Within statuses (not (is_yes r && ltb_ℤ cap att)) at_capacity refl

existing_answer-Within : (r : Result Rsvp) → Within [] r → Within statuses (existing_answer r)
existing_answer-Within (ok a) h = tt
existing_answer-Within (err (app e)) h = absurd cc
existing_answer-Within (err (backend text)) h = tt
existing_answer-Within (err trip_not_found) h = tt
existing_answer-Within (err trip_already_exists) h = tt
existing_answer-Within (err member_not_found) h = tt
existing_answer-Within (err subject_already_bound) h = tt
existing_answer-Within (err member_already_exists) h = tt
existing_answer-Within (err rsvp_not_found) h = tt

module _ {B : Backend} (F : ForeignErrors B) (caller : MemberId) (id : TripId)
    (r : RsvpResponse) where
  write_rsvp-Throws : (t : Trip) (att : ℤ) → Throws statuses (write_rsvp B t caller id r att)
  unfolding write_rsvp
  write_rsvp-Throws t att =
      bind-Throws statuses (read_clock {B = B}) _ (always statuses λ w. tt) λ at.
        let t' = record t { attending_rigs = some att; updated_at = at } in
        bind-Throws statuses (save_trip {B = B} t') _ (save_trip-Throws F statuses t') λ u.
          bind-Throws statuses (read_clock {B = B}) _ (always statuses λ w. tt) λ now.
            let a : Rsvp = record {
              trip_id = id;
              member_id = caller;
              status = r;
              updated_at = now;
            } in
            bind-Throws statuses (upsert_rsvp {B = B} a) _
              (always statuses λ w. foreign statuses _ (F.rsvp_upserted a w.rsvps))
              (λ v.
                returns statuses
                  (record { trip_id = id; member_id = caller; response = r; updated_at = now }))

  change_rsvp-Throws :
      (t : Trip) (cap : ℤ) (e : Option Rsvp) → Throws statuses (change_rsvp B t caller id r cap e)
  unfolding change_rsvp
  change_rsvp-Throws t cap e =
      bind-Throws statuses (reads {B = B} (λ w. B.rsvps.count_yes_by_trip id w.rsvps)) _
        (always statuses λ w. foreign statuses _ (F.rsvps_counted id w.rsvps))
        λ n.
          let att = new_attendance n e r in
          bind-Throws statuses (lift {B = B} (check_room att r cap)) _
            (always statuses λ w. check_room-Within att r cap) (λ u. write_rsvp-Throws t att)

  answer_rsvp-Throws :
      (t : Trip) (cap : ℤ) (e : Option Rsvp) → Throws statuses (answer_rsvp B t caller id r cap e)
  unfolding answer_rsvp
  answer_rsvp-Throws t cap none = change_rsvp-Throws t cap none
  answer_rsvp-Throws t cap (some e) = elim (Bool-cases (same_response e.status r)) [
    | inr other ↦ rw other (change_rsvp-Throws t cap (some e))
    | inl same ↦ rw same (
        returns statuses (record {
          trip_id = id;
          member_id = caller;
          response = e.status;
          updated_at = e.updated_at;
        }))
  ]

  pub set_my_rsvp-Throws : Throws statuses (set_my_rsvp B caller id r)
  unfolding set_my_rsvp
  set_my_rsvp-Throws =
      bind-Throws statuses (reads {B = B} (load_visible_trip B caller id)) _
        (always statuses (λ w. load_visible_trip-Within statuses refl F id w caller))
        λ t.
          bind-Throws statuses (lift {B = B} (check_open t r)) _
            (always statuses λ w. check_open-Within t r)
            λ cap.
              bind-Throws statuses
                (reads {B = B} (λ w. existing_answer (B.rsvps.get id caller w.rsvps))) _
                (always statuses λ w.
                  existing_answer-Within (B.rsvps.get id caller w.rsvps)
                    (F.rsvp_got id caller w.rsvps))
                (answer_rsvp-Throws t cap)
