-- ===== src/Trips/Queries/Examples.antt =====
-- The listings on the small planner.
use eastbay_overland_rally_p.Prelude.{◌≡◌, refl, [], ◌∷◌}
use eastbay_overland_rally_p.Sorting.{sort_slice}
use eastbay_overland_rally_p.Ports.{ok}
use eastbay_overland_rally_p.Demo.{demo, start, live_trip, ready_draft, secret_draft}
use eastbay_overland_rally_p.Memory.Trips.{
  list_published_and_canceled, list_drafts_visible_to, is_draft_visible_to, trip_less,
}
use eastbay_overland_rally_p.Trips.Views.{to_domain_summary}
use eastbay_overland_rally_p.Trips.Queries.{list_visible_trips_for_member, list_my_draft_trips}

bob_sees_the_live_trip :
    list_visible_trips_for_member demo "m-bob" start ≡ ok (to_domain_summary live_trip ∷ [])
unfolding list_visible_trips_for_member list_published_and_canceled sort_slice
bob_sees_the_live_trip = refl

ann_has_two_drafts :
    list_my_draft_trips demo "m-ann" start
    ≡ ok (to_domain_summary ready_draft ∷ to_domain_summary secret_draft ∷ [])
unfolding list_my_draft_trips list_drafts_visible_to is_draft_visible_to sort_slice trip_less
ann_has_two_drafts = refl

bob_has_no_draft : list_my_draft_trips demo "m-bob" start ≡ ok []
unfolding list_my_draft_trips list_drafts_visible_to is_draft_visible_to sort_slice trip_less
bob_has_no_draft = refl
