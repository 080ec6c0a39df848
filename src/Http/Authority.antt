-- ===== src/Http/Authority.antt =====
-- The handlers of server.go against the services: what a request may do to the world, and in whose
-- name.
use eastbay_overland_rally_p.Prelude.{
  String, Option, some, ◌≡◌, refl, ◌⊎◌, inl, inr, Bool-cases, ◌==◌, string_eq,
}
use eastbay_overland_rally_p.Domain.{SubjectId, Member}
use eastbay_overland_rally_p.Ports.{ok}
use eastbay_overland_rally_p.Ports.Idempotency.{IdempotencyStore}
use eastbay_overland_rally_p.Service.{Backend, World}
use eastbay_overland_rally_p.Members.Directory.{get_my_member_profile}
use eastbay_overland_rally_p.Members.History.{AccountCall, joins, edits, account_call}
use eastbay_overland_rally_p.Trips.History.{
  Call, creates, updates, cancels_trip, publishes_trip, call,
}
use eastbay_overland_rally_p.Trips.History
use eastbay_overland_rally_p.Http.Requests.{
  ApiRequest, keyed, creates_my_member, cancels_without_key, publishes, lists_members,
  searches_members, gets_my_profile, lists_visible_trips, lists_my_drafts, gets_details,
  gets_my_rsvp, gets_rsvp_summary, serve_request,
}
use eastbay_overland_rally_p.Http.Inputs.{
  create_my_member_input_from_oas, update_my_member_profile_input_from_oas,
  update_trip_input_from_oas,
}
use eastbay_overland_rally_p.Http.Handler.{
  Context, Reply, Server, Site, Handler, authenticate, caller_of, subject_from_context, ◌>>=◌,
}
use eastbay_overland_rally_p.Http.Steps.{
  Ends, authenticate-Ends, caller-Ends, body-Ends, must-Ends, inquire-Ends, plainly-Ends,
  begin-Ends, once-Ends,
}
use eastbay_overland_rally_p.Http.MemberHandlers
use eastbay_overland_rally_p.Http.TripHandlers
use eastbay_overland_rally_p.Http.PlanningHandlers
use eastbay_overland_rally_p.Http.Operations.{Operation, Request, handle}

module _ {B : Backend} {idem : Option IdempotencyStore} (s : Server B idem) (ctx : Context) where
  -- one call of the trip service in the name of the member whom the subject is bound to, or one call
  -- of the member service for the subject
  abbrev pub CalledFor : SubjectId → World B → World B → Type 0
  CalledFor sub w w' =
      ((me : Member) × (get_my_member_profile B s.members sub w ≡ ok me)
        × ((c : Call) × (w' ≡ call B w (me.id, c))))
      ⊎ ((c : AccountCall) × (w' ≡ account_call B s.members w (sub, c)))

  -- nothing changed, or the subject of the request had a service called
  abbrev pub IsAuthorized : World B → World B → Type 0
  IsAuthorized w w' =
      (w' ≡ w) ⊎ ((sub : SubjectId) × (subject_from_context ctx ≡ some sub) × CalledFor sub w w')

  module _ (site : Site B idem) where
    abbrev EndsWell : {R : Type 0} → Handler B idem R (Reply R) → Type 0
    EndsWell = Ends ctx (IsAuthorized site.world) site

    member-EndsWell :
        {R : Type 0} (k : SubjectId → Member → Handler B idem R (Reply R))
        → ((sub : SubjectId) (me : Member)
            → ((c : Call) → IsAuthorized site.world (call B site.world (me.id, c)))
            → EndsWell (k sub me))
        → EndsWell (authenticate ctx >>= λ sub. caller_of s ctx sub >>= k sub)
    member-EndsWell k p = authenticate-Ends ctx _ site (inl refl) _ λ sub bound.
        caller-Ends ctx _ site (inl refl) s sub (k sub)
          λ me known. p sub me (λ c. inr (sub, bound, inl (me, known, (c, refl))))

    handle-EndsWell :
        (key : String) (o : Operation) (q : Request o) → EndsWell (handle s ctx key o q)
    unfolding handle call account_call MemberHandlers.update_my_member_profile
        PlanningHandlers.create_trip_draft PlanningHandlers.update_trip
        PlanningHandlers.set_trip_draft_visibility PlanningHandlers.cancel_trip
        PlanningHandlers.cancel_with_key PlanningHandlers.add_trip_organizer
        PlanningHandlers.remove_trip_organizer PlanningHandlers.set_my_rsvp
    handle-EndsWell key Operation.updates_profile body =
        authenticate-Ends ctx _ site (inl refl) _ λ sub bound.
          body-Ends ctx _ site (inl refl) body _ λ b. must-Ends ctx _ site (inl refl) _ _ λ hash.
            once-Ends ctx _ _ s _ _ _ site (inl refl)
              (inr (sub, bound, inr (edits (update_my_member_profile_input_from_oas b), refl)))
    handle-EndsWell key Operation.creates_draft body = member-EndsWell _ λ sub me named.
        body-Ends ctx _ site (inl refl) body _ λ b. must-Ends ctx _ site (inl refl) _ _ λ hash.
          once-Ends ctx _ _ s _ _ _ site (inl refl) (named (creates (record { name = b.name })))
    handle-EndsWell key Operation.updates_trip (trip, body) = member-EndsWell _ λ sub me named.
        body-Ends ctx _ site (inl refl) body _ λ b. must-Ends ctx _ site (inl refl) _ _ λ hash.
          once-Ends ctx _ _ s _ _ _ site (inl refl)
            (named (updates trip (update_trip_input_from_oas b)))
    handle-EndsWell key Operation.sets_visibility (trip, body) = member-EndsWell _ λ sub me named.
        body-Ends ctx _ site (inl refl) body _ λ b. must-Ends ctx _ site (inl refl) _ _ λ hash.
          once-Ends ctx _ _ s _ _ _ site (inl refl)
            (named (History.sets_visibility trip b.draft_visibility))
    handle-EndsWell key Operation.adds_organizer (trip, body) = member-EndsWell _ λ sub me named.
        body-Ends ctx _ site (inl refl) body _ λ b. must-Ends ctx _ site (inl refl) _ _ λ hash.
          once-Ends ctx _ _ s _ _ _ site (inl refl)
            (named (History.adds_organizer trip b.member_id))
    handle-EndsWell key Operation.sets_rsvp (trip, body) = member-EndsWell _ λ sub me named.
        body-Ends ctx _ site (inl refl) body _ λ b. must-Ends ctx _ site (inl refl) _ _ λ hash.
          once-Ends ctx _ _ s _ _ _ site (inl refl) (named (History.sets_rsvp trip b.response))
    handle-EndsWell key Operation.removes_organizer (trip, member) =
        member-EndsWell _ λ sub me named. must-Ends ctx _ site (inl refl) _ _ λ hash.
          once-Ends ctx _ _ s _ _ _ site (inl refl) (named (History.removes_organizer trip member))
    handle-EndsWell key Operation.cancels trip = member-EndsWell _ λ sub me named.
        must-Ends ctx _ site (inl refl) _ _ λ hash. elim (Bool-cases (key == "")) [
          | inl empty ↦ rw empty (
              begin-Ends ctx _ _ s _ site (inl refl) λ later same.
                plainly-Ends ctx _ _ _ _ later (rw same (named (cancels_trip trip))) 200)
          | inr present ↦
              rw present (once-Ends ctx _ _ s _ _ _ site (inl refl) (named (cancels_trip trip)))
        ]

  -- A request acts only for its subject: over any repositories, with any store of replies or none,
  -- the world after a request of the API is the world before it, or the request has a subject and
  -- the world is that after one call of the trip service by the member whom the subject is bound to,
  -- or after one call of the member service for the subject.
  pub serve_request-IsAuthorized :
      (q : ApiRequest) (site : Site B idem)
      → IsAuthorized site.world (serve_request s ctx q site).1.world
  unfolding serve_request Ends call account_call MemberHandlers.create_my_member
      PlanningHandlers.cancel_trip TripHandlers.publish_trip MemberHandlers.list_members
      MemberHandlers.search_members MemberHandlers.get_my_member_profile
      TripHandlers.list_visible_trips_for_member TripHandlers.list_my_draft_trips
      TripHandlers.get_trip_details TripHandlers.get_my_rsvp_for_trip
      TripHandlers.get_trip_rsvp_summary
  serve_request-IsAuthorized (keyed key o q) site = handle-EndsWell site key o q
  serve_request-IsAuthorized (creates_my_member body) site =
      authenticate-Ends ctx (IsAuthorized site.world) site (inl refl) _ λ sub bound.
        body-Ends ctx (IsAuthorized site.world) site (inl refl) body _ λ b.
          plainly-Ends ctx (IsAuthorized site.world) _ _ _ site
            (inr (sub, bound, inr (joins (create_my_member_input_from_oas b), refl))) 201
  serve_request-IsAuthorized (cancels_without_key trip) site =
      member-EndsWell site _ λ sub me named.
        plainly-Ends ctx (IsAuthorized site.world) _ _ _ site (named (cancels_trip trip)) 200
  serve_request-IsAuthorized (publishes trip) site = member-EndsWell site _ λ sub me named.
      plainly-Ends ctx (IsAuthorized site.world) _ _ _ site (named (publishes_trip trip)) 200
  serve_request-IsAuthorized gets_my_profile site =
      authenticate-Ends ctx (IsAuthorized site.world) site (inl refl) _
        λ sub bound. inquire-Ends ctx (IsAuthorized site.world) site (inl refl) _ _ 200 _
  serve_request-IsAuthorized (lists_members flag) site =
      member-EndsWell site _
        λ sub me named. inquire-Ends ctx (IsAuthorized site.world) site (inl refl) _ _ 200 _
  serve_request-IsAuthorized (searches_members q) site =
      member-EndsWell site _
        λ sub me named. inquire-Ends ctx (IsAuthorized site.world) site (inl refl) _ _ 200 _
  serve_request-IsAuthorized lists_visible_trips site =
      member-EndsWell site _
        λ sub me named. inquire-Ends ctx (IsAuthorized site.world) site (inl refl) _ _ 200 _
  serve_request-IsAuthorized lists_my_drafts site =
      member-EndsWell site _
        λ sub me named. inquire-Ends ctx (IsAuthorized site.world) site (inl refl) _ _ 200 _
  serve_request-IsAuthorized (gets_details trip) site =
      member-EndsWell site _
        λ sub me named. inquire-Ends ctx (IsAuthorized site.world) site (inl refl) _ _ 200 _
  serve_request-IsAuthorized (gets_my_rsvp trip) site =
      member-EndsWell site _
        λ sub me named. inquire-Ends ctx (IsAuthorized site.world) site (inl refl) _ _ 200 _
  serve_request-IsAuthorized (gets_rsvp_summary trip) site =
      member-EndsWell site _
        λ sub me named. inquire-Ends ctx (IsAuthorized site.world) site (inl refl) _ _ 200 _
