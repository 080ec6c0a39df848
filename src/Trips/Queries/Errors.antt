-- ===== src/Trips/Queries/Errors.antt =====
-- The errors of the methods of service.go that read.
use eastbay_overland_rally_p.Prelude.{ℕ, true, not, List, [], ◌∷◌, ◌≡◌, refl}
use eastbay_overland_rally_p.Domain.{
  TripId, MemberId, Trip, MyRsvp, Rsvp, TripStatus, draft, published, canceled, other_status,
  is_draft,
}
use eastbay_overland_rally_p.Ports.{
  Result, ok, err, require, app, backend, trip_not_found, trip_already_exists, member_not_found,
  subject_already_bound, member_already_exists, rsvp_not_found,
}
use eastbay_overland_rally_p.Ports.Errors.{declares, Within, require-Within, bind-Within}
use eastbay_overland_rally_p.Service.{Backend, World}
use eastbay_overland_rally_p.Service.Errors.{ForeignErrors}
use eastbay_overland_rally_p.Trips.Errors.{
  load_visible_trip-Within, load_organizer_summaries-Within, rsvp_summary_for_status-Within,
  trip_rsvp_summary_for_trip-Within,
}
use eastbay_overland_rally_p.Trips.Types.{not_available}
use eastbay_overland_rally_p.Trips.Access.{load_visible_trip}
use eastbay_overland_rally_p.Trips.Views.{
  load_organizer_summaries, rsvp_summary_for_status, my_rsvp_for_trip,
}
use eastbay_overland_rally_p.Trips.Queries.{
  answer_if_any, or_no_rsvp, list_visible_trips_for_member, list_my_draft_trips, my_rsvp_for_status,
  get_trip_details, get_my_rsvp_for_trip, get_trip_rsvp_summary,
}

module _ (cs : List ℕ) where
  answer_if_any-Within : (r : Result MyRsvp) → Within [] r → Within cs (answer_if_any r)
  answer_if_any-Within (ok a) h = tt
  answer_if_any-Within (err (app e)) h = absurd cc
  answer_if_any-Within (err (backend text)) h = tt
  answer_if_any-Within (err trip_not_found) h = tt
  answer_if_any-Within (err trip_already_exists) h = tt
  answer_if_any-Within (err member_not_found) h = tt
  answer_if_any-Within (err subject_already_bound) h = tt
  answer_if_any-Within (err member_already_exists) h = tt
  answer_if_any-Within (err rsvp_not_found) h = tt

module _ (cs : List ℕ) (missing : declares cs 404 ≡ true) where
  or_no_rsvp-Within : (r : Result Rsvp) → Within [] r → Within cs (or_no_rsvp r)
  or_no_rsvp-Within (ok a) h = tt
  or_no_rsvp-Within (err (app e)) h = absurd cc
  or_no_rsvp-Within (err (backend text)) h = tt
  or_no_rsvp-Within (err trip_not_found) h = tt
  or_no_rsvp-Within (err trip_already_exists) h = tt
  or_no_rsvp-Within (err member_not_found) h = tt
  or_no_rsvp-Within (err subject_already_bound) h = tt
  or_no_rsvp-Within (err member_already_exists) h = tt
  or_no_rsvp-Within (err rsvp_not_found) h = missing

module _ {B : Backend} (F : ForeignErrors B) (caller : MemberId) (w : World B) where
  pub list_visible_trips_for_member-Within : Within [] (list_visible_trips_for_member B caller w)
  unfolding list_visible_trips_for_member
  list_visible_trips_for_member-Within =
      bind-Within [] (B.trips.list_published_and_canceled w.trips) _ (F.trips_listed w.trips)
        (λ ts. tt)

  pub list_my_draft_trips-Within : Within [] (list_my_draft_trips B caller w)
  unfolding list_my_draft_trips
  list_my_draft_trips-Within =
      bind-Within [] (B.trips.list_drafts_visible_to caller w.trips) _
        (F.drafts_listed caller w.trips) (λ ts. tt)

  my_rsvp_for_trip-Within : (t : Trip) → Within [] (my_rsvp_for_trip B t caller w)
  unfolding my_rsvp_for_trip
  my_rsvp_for_trip-Within t =
      bind-Within [] (B.rsvps.get t.id caller w.rsvps) _ (F.rsvp_got t.id caller w.rsvps) (λ r. tt)

  my_rsvp_for_status-Within :
      (cs : List ℕ) (s : TripStatus) (t : Trip) → Within cs (my_rsvp_for_status B s t caller w)
  unfolding my_rsvp_for_status
  my_rsvp_for_status-Within cs published t =
      answer_if_any-Within cs (my_rsvp_for_trip B t caller w) (my_rsvp_for_trip-Within t)
  my_rsvp_for_status-Within cs canceled t =
      answer_if_any-Within cs (my_rsvp_for_trip B t caller w) (my_rsvp_for_trip-Within t)
  my_rsvp_for_status-Within cs draft t = tt
  my_rsvp_for_status-Within cs (other_status s) t = tt

  module _ (id : TripId) where
    pub get_trip_details-Within : Within (404 ∷ []) (get_trip_details B caller id w)
    unfolding get_trip_details
    get_trip_details-Within =
        let cs : List ℕ = 404 ∷ [] in
        bind-Within cs (load_visible_trip B caller id w) _
          (load_visible_trip-Within cs refl F id w caller)
          λ t.
            bind-Within cs (load_organizer_summaries B t.organizer_member_ids w) _
              (load_organizer_summaries-Within F cs t.organizer_member_ids w)
              λ orgs.
                bind-Within cs (rsvp_summary_for_status B t.status t w) _
                  (rsvp_summary_for_status-Within F cs t.status t w)
                  λ sum.
                    bind-Within cs (my_rsvp_for_status B t.status t caller w) _
                      (my_rsvp_for_status-Within cs t.status t) (λ my. tt)

    pub get_my_rsvp_for_trip-Within : Within (404 ∷ 409 ∷ []) (get_my_rsvp_for_trip B caller id w)
    unfolding get_my_rsvp_for_trip
    get_my_rsvp_for_trip-Within =
        let cs : List ℕ = 404 ∷ 409 ∷ [] in
        let late = not_available "rsvp is not available for draft trips" in
        bind-Within cs (load_visible_trip B caller id w) _
          (load_visible_trip-Within cs refl F id w caller)
          λ t.
            bind-Within cs (require (not (is_draft t.status)) late) _
              (require-Within cs (not (is_draft t.status)) late refl)
              λ u.
                bind-Within cs (or_no_rsvp (B.rsvps.get id caller w.rsvps)) _
                  (or_no_rsvp-Within cs refl (B.rsvps.get id caller w.rsvps)
                    (F.rsvp_got id caller w.rsvps))
                  (λ r. tt)

    pub get_trip_rsvp_summary-Within : Within (404 ∷ 409 ∷ []) (get_trip_rsvp_summary B caller id w)
    unfolding get_trip_rsvp_summary
    get_trip_rsvp_summary-Within =
        let cs : List ℕ = 404 ∷ 409 ∷ [] in
        let late = not_available "rsvp summary is not available for draft trips" in
        bind-Within cs (load_visible_trip B caller id w) _
          (load_visible_trip-Within cs refl F id w caller)
          λ t.
            bind-Within cs (require (not (is_draft t.status)) late) _
              (require-Within cs (not (is_draft t.status)) late refl)
              (λ u. trip_rsvp_summary_for_trip-Within F cs t w)
