-- ===== src/Http/Admission.antt =====
-- Requests without a subject, and those of a subject that is no member, as server.go refuses them.
use eastbay_overland_rally_p.Prelude.{true, Option, none, some, ◌≡◌, refl}
use eastbay_overland_rally_p.Domain.{SubjectId, Member}
use eastbay_overland_rally_p.Ports.{ok, err, Failure, member_not_found}
use eastbay_overland_rally_p.Ports.Idempotency.{IdempotencyStore}
use eastbay_overland_rally_p.Service.{Backend}
use eastbay_overland_rally_p.Members.Types
use eastbay_overland_rally_p.Members.Directory.{get_my_member_profile}
use eastbay_overland_rally_p.Http.Handler.{
  Context, Reply, Server, Site, Handler, serve, authenticate, caller_of, subject_from_context,
  is_member_not_provisioned, unauthorized, not_provisioned, ◌>>=◌,
}
use eastbay_overland_rally_p.Http.Operations.{Operation, handle}
use eastbay_overland_rally_p.Http.MemberHandlers
use eastbay_overland_rally_p.Http.TripHandlers
use eastbay_overland_rally_p.Http.PlanningHandlers
use eastbay_overland_rally_p.Http.Requests.{
  ApiRequest, keyed, creates_my_member, cancels_without_key, publishes, lists_members,
  searches_members, gets_my_profile, lists_visible_trips, lists_my_drafts, gets_details,
  gets_my_rsvp, gets_rsvp_summary, needs_member, outline, serve_request,
}

module _ {B : Backend} {idem : Option IdempotencyStore} (s : Server B idem) (ctx : Context)
    (site : Site B idem) where
  no_profile :
      (sub : SubjectId)
      → B.members.get_by_subject sub site.world.members ≡ err member_not_found
      → get_my_member_profile B s.members sub site.world ≡ err Types.not_provisioned
  unfolding get_my_member_profile
  no_profile sub unknown = rw unknown refl

  module _ {R : Type 0} where
    turned_away :
        (k : SubjectId → Handler B idem R (Reply R))
        → subject_from_context ctx ≡ none
        → outline (serve (authenticate ctx >>= k) site) ≡ (ok (unauthorized ctx), site)
    unfolding serve authenticate
    turned_away k e = rw e refl

    not_a_member :
        (sub : SubjectId) (f : Failure) (k : SubjectId → Member → Handler B idem R (Reply R))
        → subject_from_context ctx ≡ some sub
        → get_my_member_profile B s.members sub site.world ≡ err f
        → is_member_not_provisioned f ≡ true
        → outline (serve (authenticate ctx >>= λ sub. caller_of s ctx sub >>= k sub) site)
          ≡ (ok (not_provisioned ctx), site)
    unfolding serve authenticate caller_of
    not_a_member sub f k e unknown unbound = rw (e, unknown, unbound) refl

  -- A request without a subject, or with an empty one, is answered 401 UNAUTHORIZED "missing subject"
  -- by every handler, and nothing changes.
  pub anonymous_refused :
      (q : ApiRequest)
      → subject_from_context ctx ≡ none
      → serve_request s ctx q site ≡ (ok (unauthorized ctx), site)
  unfolding serve_request handle MemberHandlers.create_my_member
      MemberHandlers.update_my_member_profile MemberHandlers.list_members
      MemberHandlers.search_members MemberHandlers.get_my_member_profile TripHandlers.publish_trip
      TripHandlers.list_visible_trips_for_member TripHandlers.list_my_draft_trips
      TripHandlers.get_trip_details TripHandlers.get_my_rsvp_for_trip
      TripHandlers.get_trip_rsvp_summary PlanningHandlers.create_trip_draft
      PlanningHandlers.update_trip PlanningHandlers.set_trip_draft_visibility
      PlanningHandlers.cancel_trip PlanningHandlers.add_trip_organizer
      PlanningHandlers.remove_trip_organizer PlanningHandlers.set_my_rsvp
  anonymous_refused (keyed key Operation.updates_profile body) e = turned_away _ e
  anonymous_refused (keyed key Operation.creates_draft body) e = turned_away _ e
  anonymous_refused (keyed key Operation.updates_trip (trip, body)) e = turned_away _ e
  anonymous_refused (keyed key Operation.sets_visibility (trip, body)) e = turned_away _ e
  anonymous_refused (keyed key Operation.cancels trip) e = turned_away _ e
  anonymous_refused (keyed key Operation.adds_organizer (trip, body)) e = turned_away _ e
  anonymous_refused (keyed key Operation.removes_organizer (trip, member)) e = turned_away _ e
  anonymous_refused (keyed key Operation.sets_rsvp (trip, body)) e = turned_away _ e
  anonymous_refused (creates_my_member body) e = turned_away _ e
  anonymous_refused (cancels_without_key trip) e = turned_away _ e
  anonymous_refused (publishes trip) e = turned_away _ e
  anonymous_refused (lists_members flag) e = turned_away _ e
  anonymous_refused (searches_members q) e = turned_away _ e
  anonymous_refused gets_my_profile e = turned_away _ e
  anonymous_refused lists_visible_trips e = turned_away _ e
  anonymous_refused lists_my_drafts e = turned_away _ e
  anonymous_refused (gets_details trip) e = turned_away _ e
  anonymous_refused (gets_my_rsvp trip) e = turned_away _ e
  anonymous_refused (gets_rsvp_summary trip) e = turned_away _ e

  unprovisioned_refused :
      (sub : SubjectId) (f : Failure) (q : ApiRequest)
      → needs_member q ≡ true
      → subject_from_context ctx ≡ some sub
      → get_my_member_profile B s.members sub site.world ≡ err f
      → is_member_not_provisioned f ≡ true
      → serve_request s ctx q site ≡ (ok (not_provisioned ctx), site)
  unfolding serve_request handle MemberHandlers.create_my_member
      MemberHandlers.update_my_member_profile MemberHandlers.list_members
      MemberHandlers.search_members MemberHandlers.get_my_member_profile TripHandlers.publish_trip
      TripHandlers.list_visible_trips_for_member TripHandlers.list_my_draft_trips
      TripHandlers.get_trip_details TripHandlers.get_my_rsvp_for_trip
      TripHandlers.get_trip_rsvp_summary PlanningHandlers.create_trip_draft
      PlanningHandlers.update_trip PlanningHandlers.set_trip_draft_visibility
      PlanningHandlers.cancel_trip PlanningHandlers.add_trip_organizer
      PlanningHandlers.remove_trip_organizer PlanningHandlers.set_my_rsvp
  unprovisioned_refused sub f (keyed key Operation.updates_profile body) needed e u b = absurd cc
  unprovisioned_refused sub f (keyed key Operation.creates_draft body) needed e u b =
      not_a_member sub f _ e u b
  unprovisioned_refused sub f (keyed key Operation.updates_trip (trip, body)) needed e u b =
      not_a_member sub f _ e u b
  unprovisioned_refused sub f (keyed key Operation.sets_visibility (trip, body)) needed e u b =
      not_a_member sub f _ e u b
  unprovisioned_refused sub f (keyed key Operation.cancels trip) needed e u b =
      not_a_member sub f _ e u b
  unprovisioned_refused sub f (keyed key Operation.adds_organizer (trip, body)) needed e u b =
      not_a_member sub f _ e u b
  unprovisioned_refused sub f (keyed key Operation.removes_organizer (trip, member)) needed e u b =
      not_a_member sub f _ e u b
  unprovisioned_refused sub f (keyed key Operation.sets_rsvp (trip, body)) needed e u b =
      not_a_member sub f _ e u b
  unprovisioned_refused sub f (creates_my_member body) needed e u b = absurd cc
  unprovisioned_refused sub f (cancels_without_key trip) needed e u b = not_a_member sub f _ e u b
  unprovisioned_refused sub f (publishes trip) needed e u b = not_a_member sub f _ e u b
  unprovisioned_refused sub f (lists_members flag) needed e u b = not_a_member sub f _ e u b
  unprovisioned_refused sub f (searches_members q) needed e u b = not_a_member sub f _ e u b
  unprovisioned_refused sub f gets_my_profile needed e u b = absurd cc
  unprovisioned_refused sub f lists_visible_trips needed e u b = not_a_member sub f _ e u b
  unprovisioned_refused sub f lists_my_drafts needed e u b = not_a_member sub f _ e u b
  unprovisioned_refused sub f (gets_details trip) needed e u b = not_a_member sub f _ e u b
  unprovisioned_refused sub f (gets_my_rsvp trip) needed e u b = not_a_member sub f _ e u b
  unprovisioned_refused sub f (gets_rsvp_summary trip) needed e u b = not_a_member sub f _ e u b

  -- When the repository finds no member for the subject of a request, every handler but those that
  -- create, show and update the profile of the subject answers 401 MEMBER_NOT_PROVISIONED, and
  -- nothing changes.
  pub stranger_refused :
      (sub : SubjectId) (q : ApiRequest)
      → needs_member q ≡ true
      → subject_from_context ctx ≡ some sub
      → B.members.get_by_subject sub site.world.members ≡ err member_not_found
      → serve_request s ctx q site ≡ (ok (not_provisioned ctx), site)
  stranger_refused sub q needed e unknown =
      unprovisioned_refused sub Types.not_provisioned q needed e (no_profile sub unknown) refl
