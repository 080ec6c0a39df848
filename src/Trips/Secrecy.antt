-- ===== src/Trips/Secrecy.antt =====
-- Drafts that the caller may not see, beside trips that do not exist.
use eastbay_overland_rally_p.Prelude.{◌≡◌, ◌⊎◌, inl, inr, false, arith}
use eastbay_overland_rally_p.Domain.{Trip, TripId, MemberId, DraftVisibility, RsvpResponse, draft}
use eastbay_overland_rally_p.Ports.{ok, err, trip_not_found}
use eastbay_overland_rally_p.Service.{Backend, World}
use eastbay_overland_rally_p.Trips.Types.{UpdateTripInput, no_such_trip}
use eastbay_overland_rally_p.Trips.Access.{
  is_trip_visible_to_caller, is_draft_visible_to_caller, load_trip, load_visible_trip,
  load_organized_trip,
}
use eastbay_overland_rally_p.Trips.Access.Guards.{load_trip_found}
use eastbay_overland_rally_p.Trips.Patch.{authorize_update}
use eastbay_overland_rally_p.Trips.Queries.{
  get_trip_details, get_my_rsvp_for_trip, get_trip_rsvp_summary,
}
use eastbay_overland_rally_p.Trips.Queries.Hidden.{queries_refused}
use eastbay_overland_rally_p.Trips.Drafts.{update_trip, set_trip_draft_visibility}
use eastbay_overland_rally_p.Trips.Drafts.Effects.{
  set_trip_draft_visibility_refused, update_trip_missing, update_trip_refused,
}
use eastbay_overland_rally_p.Trips.Organizers.{add_trip_organizer, remove_trip_organizer}
use eastbay_overland_rally_p.Trips.Organizers.Membership.{organizers_refused}
use eastbay_overland_rally_p.Trips.Publishing.{publish_trip, cancel_trip}
use eastbay_overland_rally_p.Trips.Publishing.Effects.{publishing_refused}
use eastbay_overland_rally_p.Trips.Rsvps.{set_my_rsvp}
use eastbay_overland_rally_p.Trips.Rsvps.Effects.{set_my_rsvp_refused}

-- Every method that names a trip answers with the 404 of a missing trip and changes nothing.
pub record NotFoundEverywhere (B : Backend) (caller : MemberId) (id : TripId) (w : World B)
    : Type 0 where
  pub details : get_trip_details B caller id w ≡ err no_such_trip
  pub my_rsvp : get_my_rsvp_for_trip B caller id w ≡ err no_such_trip
  pub rsvp_summary : get_trip_rsvp_summary B caller id w ≡ err no_such_trip
  pub rsvp : (r : RsvpResponse) → set_my_rsvp B caller id r w ≡ (err no_such_trip, w)
  pub update : (p : UpdateTripInput) → update_trip B caller id p w ≡ (err no_such_trip, w)
  pub visibility :
      (dv : DraftVisibility) → set_trip_draft_visibility B caller id dv w ≡ (err no_such_trip, w)
  pub add : (m : MemberId) → add_trip_organizer B caller id m w ≡ (err no_such_trip, w)
  pub remove : (m : MemberId) → remove_trip_organizer B caller id m w ≡ (err no_such_trip, w)
  pub publish : publish_trip B caller id w ≡ (err no_such_trip, w)
  pub cancel : cancel_trip B caller id w ≡ (err no_such_trip, w)

module _ (B : Backend) (caller : MemberId) (id : TripId) (w : World B) where
  -- the trip is not stored, or it is a draft that the caller may not see
  abbrev pub IsSecret : Type 0
  IsSecret =
      (B.trips.get_by_id id w.trips ≡ err trip_not_found)
      ⊎ ((t : Trip) × (B.trips.get_by_id id w.trips ≡ ok t)
          × (t.status ≡ draft)
          × (is_trip_visible_to_caller t caller ≡ false))

  visible-refused : IsSecret → load_visible_trip B caller id w ≡ err no_such_trip
  unfolding load_visible_trip
  visible-refused (inl missing) = ground arith
  visible-refused (inr (t, found, early, hidden)) = ground arith

  organized-refused : IsSecret → load_organized_trip B caller id w ≡ err no_such_trip
  unfolding load_organized_trip load_visible_trip
  organized-refused (inl missing) = ground arith
  organized-refused (inr (t, found, early, hidden)) = ground arith

  authorize_update-hidden :
      (t : Trip)
      → t.status ≡ draft
      → is_trip_visible_to_caller t caller ≡ false
      → authorize_update t caller ≡ err no_such_trip
  unfolding authorize_update is_trip_visible_to_caller is_draft_visible_to_caller
  authorize_update-hidden t early hidden = ground arith

  update-refused :
      IsSecret → (p : UpdateTripInput) → update_trip B caller id p w ≡ (err no_such_trip, w)
  update-refused (inl missing) p =
      update_trip_missing B caller id w no_such_trip p (unfold load_trip in ground arith)
  update-refused (inr (t, found, early, hidden)) p =
      update_trip_refused B caller id w no_such_trip p t (load_trip_found B caller id w t found)
        (authorize_update-hidden t early hidden)

  -- Of a draft that the caller may not see every method gives the answer that it gives of a trip that
  -- is not stored, and leaves the world as it is.
  pub secret_not_found : IsSecret → NotFoundEverywhere B caller id w
  secret_not_found s =
      let seen = visible-refused s in
      let organized = organized-refused s in
      let (d, m, r) = queries_refused B caller id w no_such_trip seen in
      let (p, c) = publishing_refused B caller id w no_such_trip organized in
      record {
        details = d;
        my_rsvp = m;
        rsvp_summary = r;
        rsvp = λ x. set_my_rsvp_refused B caller id x w no_such_trip seen;
        update = update-refused s;
        visibility = λ dv. set_trip_draft_visibility_refused B caller id w no_such_trip dv seen;
        add = λ t. (organizers_refused B caller id t w no_such_trip organized).0;
        remove = λ t. (organizers_refused B caller id t w no_such_trip organized).1;
        publish = p;
        cancel = c;
      }
