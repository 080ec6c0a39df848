-- ===== src/Trips/Examples.antt =====
-- A history of calls on the small planner, and a draft that a caller may not see.
use eastbay_overland_rally_p.Prelude.{refl, inr, List, [], ◌∷◌, arith, eq_iff, string_eq}
use eastbay_overland_rally_p.Prelude.Assoc.{lookup}
use eastbay_overland_rally_p.Domain.{MemberId, rsvp_yes, public_draft}
use eastbay_overland_rally_p.Demo.{demo, start, secret_draft}
use eastbay_overland_rally_p.Memory.Trips.{get_by_id}
use eastbay_overland_rally_p.Memory.Trips.Contract.{memory_trips-TripLaws}
use eastbay_overland_rally_p.Trips.Access.{is_trip_visible_to_caller}
use eastbay_overland_rally_p.Trips.History.{
  Call, creates, sets_visibility, publishes_trip, cancels_trip, sets_rsvp, adds_organizer, calls,
  IsKeyed, Follows, calls-Follows,
}
use eastbay_overland_rally_p.Trips.Secrecy.{IsSecret, NotFoundEverywhere, secret_not_found}

abbrev season : List (MemberId × Call)
season =
    ("m-bob", creates (record { name = " Mojave  Road " }))
    ∷ ("m-ann", sets_visibility "t-secret" public_draft)
    ∷ ("m-ann", publishes_trip "t-ready")
    ∷ ("m-ann", adds_organizer "t-live" "m-bob")
    ∷ ("m-bob", sets_rsvp "t-live" rsvp_yes)
    ∷ ("m-bob", cancels_trip "t-live")
    ∷ []

start-IsKeyed : IsKeyed demo start
unfolding get_by_id lookup
start-IsKeyed id t h = ground (arith, eq_iff "t-live" id, eq_iff "t-ready" id, eq_iff "t-secret" id)

calls-Follows_example : Follows demo start (calls demo start season)
calls-Follows_example = calls-Follows demo memory_trips-TripLaws start season start-IsKeyed

secret-IsSecret : IsSecret demo "m-bob" "t-secret" start
unfolding get_by_id lookup is_trip_visible_to_caller
secret-IsSecret = inr (secret_draft, refl, refl, refl)

secret_not_found_example : NotFoundEverywhere demo "m-bob" "t-secret" start
secret_not_found_example = secret_not_found demo "m-bob" "t-secret" start secret-IsSecret
