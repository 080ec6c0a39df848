-- ===== src/Memory/Examples.antt =====
-- The repositories in memory on the small planner.
use eastbay_overland_rally_p.Prelude.{◌≡◌, ◌↔◌, refl, true, false, Mem, List, [], ◌∷◌}
use eastbay_overland_rally_p.Ports.Laws.{MemberLaws}
use eastbay_overland_rally_p.Demo.{no_tables, start, ready_draft, secret_draft, live_trip}
use eastbay_overland_rally_p.Prelude.Assoc.{lookup}
use eastbay_overland_rally_p.Sorting.{sort_slice}
use eastbay_overland_rally_p.Domain.{Trip, is_draft}
use eastbay_overland_rally_p.Ports.{ok}
use eastbay_overland_rally_p.Trips.Access.{is_trip_visible_to_caller}
use eastbay_overland_rally_p.Memory.Trips
use eastbay_overland_rally_p.Memory.Trips.{
  list_drafts_visible_to, is_draft_visible_to, trip_less, list_published_and_canceled,
}
use eastbay_overland_rally_p.Memory.Trips.Listing.{
  list_drafts_visible_to_iff, list_published_and_canceled_iff,
}
use eastbay_overland_rally_p.Memory.Members.{memory_members}
use eastbay_overland_rally_p.Memory.Members.Contract.{IsKeyed, memory_members-MemberLaws}

memory_members-MemberLaws_example : MemberLaws (memory_members no_tables) IsKeyed
memory_members-MemberLaws_example = memory_members-MemberLaws no_tables

abbrev drafts : List Trip
drafts = ready_draft ∷ secret_draft ∷ []

ready_is_stored : Trips.get_by_id "t-ready" start.trips ≡ ok ready_draft
unfolding Trips.get_by_id lookup
ready_is_stored = refl

drafts_of_ann : list_drafts_visible_to "m-ann" start.trips ≡ ok drafts
unfolding list_drafts_visible_to is_draft_visible_to sort_slice trip_less
drafts_of_ann = refl

list_drafts_visible_to_iff_example : Mem ready_draft drafts ↔ (
    (is_draft ready_draft.status ≡ true) × (is_trip_visible_to_caller ready_draft "m-ann" ≡ true))
list_drafts_visible_to_iff_example =
    list_drafts_visible_to_iff start.trips "m-ann" "t-ready" ready_draft drafts ready_is_stored
      drafts_of_ann

live_is_stored : Trips.get_by_id "t-live" start.trips ≡ ok live_trip
unfolding Trips.get_by_id lookup
live_is_stored = refl

open_trips : list_published_and_canceled start.trips ≡ ok (live_trip ∷ [])
unfolding list_published_and_canceled sort_slice
open_trips = refl

list_published_and_canceled_iff_example :
    Mem live_trip (live_trip ∷ [])
    ↔ ((is_draft live_trip.status ≡ false) × (is_trip_visible_to_caller live_trip "m-bob" ≡ true))
list_published_and_canceled_iff_example =
    list_published_and_canceled_iff start.trips "m-bob" "t-live" live_trip (live_trip ∷ [])
      live_is_stored open_trips
