-- ===== src/Trips/Errors.antt =====
-- The errors of the lookups and the read models of service.go.
use eastbay_overland_rally_p.Prelude.{ℕ, true, List, [], ◌∷◌, ◌≡◌}
use eastbay_overland_rally_p.Domain.{
  Trip, TripId, MemberId, TripStatus, draft, published, canceled, other_status,
}
use eastbay_overland_rally_p.Ports.{
  Result, ok, err, require, app, backend, trip_not_found, trip_already_exists, member_not_found,
  subject_already_bound, member_already_exists, rsvp_not_found,
}
use eastbay_overland_rally_p.Ports.Errors.{declares, Within, foreign, require-Within, bind-Within}
use eastbay_overland_rally_p.Service.{Backend, World, reads, read_clock, save_trip}
use eastbay_overland_rally_p.Service.Errors.{Throws, always, bind-Throws, ForeignErrors}
use eastbay_overland_rally_p.Trips.Types.{no_such_trip}
use eastbay_overland_rally_p.Trips.Access.{
  or_no_such_trip, is_trip_visible_to_caller, is_organizer, load_trip, load_visible_trip,
  load_organized_trip,
}
use eastbay_overland_rally_p.Trips.Views.{
  says_yes, says_no, ids_with, load_organizer_summaries, load_member_summaries_sorted,
  trip_rsvp_summary_for_trip, rsvp_summary_for_status, trip_details_for_trip,
}
use eastbay_overland_rally_p.Trips.Saving.{save_and_show}

module _ (statuses : List ℕ) (missing : declares statuses 404 ≡ true) where
  or_no_such_trip-Within : (r : Result Trip) → Within [] r → Within statuses (or_no_such_trip r)
  or_no_such_trip-Within (ok a) h = tt
  or_no_such_trip-Within (err (app e)) h = absurd cc
  or_no_such_trip-Within (err (backend text)) h = tt
  or_no_such_trip-Within (err trip_not_found) h = missing
  or_no_such_trip-Within (err trip_already_exists) h = tt
  or_no_such_trip-Within (err member_not_found) h = tt
  or_no_such_trip-Within (err subject_already_bound) h = tt
  or_no_such_trip-Within (err member_already_exists) h = tt
  or_no_such_trip-Within (err rsvp_not_found) h = tt

  module _ {B : Backend} (F : ForeignErrors B) (id : TripId) (w : World B) where
    pub load_trip-Within : Within statuses (load_trip B id w)
    unfolding load_trip
    load_trip-Within =
        or_no_such_trip-Within (B.trips.get_by_id id w.trips) (F.trip_by_id id w.trips)

    module _ (caller : MemberId) where
      pub load_visible_trip-Within : Within statuses (load_visible_trip B caller id w)
      unfolding load_visible_trip
      load_visible_trip-Within = bind-Within statuses (load_trip B id w) _ load_trip-Within λ t.
          bind-Within statuses (require (is_trip_visible_to_caller t caller) no_such_trip) _
            (require-Within statuses (is_trip_visible_to_caller t caller) no_such_trip missing)
            (λ u. tt)

      pub load_organized_trip-Within : Within statuses (load_organized_trip B caller id w)
      unfolding load_organized_trip
      load_organized_trip-Within =
          bind-Within statuses (load_visible_trip B caller id w) _ load_visible_trip-Within λ t.
            bind-Within statuses (require (is_organizer t caller) no_such_trip) _
              (require-Within statuses (is_organizer t caller) no_such_trip missing) (λ u. tt)

module _ {B : Backend} (F : ForeignErrors B) (statuses : List ℕ) where
  pub load_organizer_summaries-Within :
      (ids : List MemberId) (w : World B) → Within statuses (load_organizer_summaries B ids w)
  unfolding load_organizer_summaries
  load_organizer_summaries-Within [] w = tt
  load_organizer_summaries-Within (id ∷ ids) w =
      bind-Within statuses (B.members.get_by_id id w.members) _
        (foreign statuses _ (F.member_by_id id w.members))
        λ m.
          bind-Within statuses (load_organizer_summaries B ids w) _
            (load_organizer_summaries-Within ids w) (λ rest. tt)

  load_member_summaries_sorted-Within :
      (ids : List MemberId) (w : World B) → Within statuses (load_member_summaries_sorted B ids w)
  unfolding load_member_summaries_sorted
  load_member_summaries_sorted-Within ids w =
      bind-Within statuses (load_organizer_summaries B ids w) _
        (load_organizer_summaries-Within ids w) (λ out. tt)

  pub trip_rsvp_summary_for_trip-Within :
      (t : Trip) (w : World B) → Within statuses (trip_rsvp_summary_for_trip B t w)
  unfolding trip_rsvp_summary_for_trip
  trip_rsvp_summary_for_trip-Within t w =
      bind-Within statuses (B.rsvps.list_by_trip t.id w.rsvps) _
        (foreign statuses _ (F.rsvps_listed t.id w.rsvps))
        λ recs.
          bind-Within statuses (load_member_summaries_sorted B (ids_with says_yes recs) w) _
            (load_member_summaries_sorted-Within (ids_with says_yes recs) w)
            λ yes.
              bind-Within statuses (load_member_summaries_sorted B (ids_with says_no recs) w) _
                (load_member_summaries_sorted-Within (ids_with says_no recs) w) (λ no. tt)

  pub rsvp_summary_for_status-Within :
      (s : TripStatus) (t : Trip) (w : World B) → Within statuses (rsvp_summary_for_status B s t w)
  unfolding rsvp_summary_for_status
  rsvp_summary_for_status-Within published t w =
      bind-Within statuses (trip_rsvp_summary_for_trip B t w) _
        (trip_rsvp_summary_for_trip-Within t w) (λ sum. tt)
  rsvp_summary_for_status-Within canceled t w =
      bind-Within statuses (trip_rsvp_summary_for_trip B t w) _
        (trip_rsvp_summary_for_trip-Within t w) (λ sum. tt)
  rsvp_summary_for_status-Within draft t w = tt
  rsvp_summary_for_status-Within (other_status s) t w = tt

  pub trip_details_for_trip-Within :
      (t : Trip) (w : World B) → Within statuses (trip_details_for_trip B t w)
  unfolding trip_details_for_trip
  trip_details_for_trip-Within t w =
      bind-Within statuses (load_organizer_summaries B t.organizer_member_ids w) _
        (load_organizer_summaries-Within t.organizer_member_ids w)
        λ orgs.
          bind-Within statuses (rsvp_summary_for_status B t.status t w) _
            (rsvp_summary_for_status-Within t.status t w) (λ sum. tt)

  pub save_trip-Throws : (t : Trip) → Throws statuses (save_trip {B = B} t)
  save_trip-Throws t = always statuses λ w. foreign statuses _ (F.trip_saved t w.trips)

  pub save_and_show-Throws : (t : Trip) → Throws statuses (save_and_show B t)
  save_and_show-Throws t =
      bind-Throws statuses (read_clock {B = B}) _ (always statuses (λ w. tt)) λ now.
        let t' = record t { updated_at = now } in
        bind-Throws statuses (save_trip {B = B} t') (λ u. reads (trip_details_for_trip B t'))
          (save_trip-Throws t') (λ u. always statuses (trip_details_for_trip-Within t'))
