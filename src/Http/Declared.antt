-- ===== src/Http/Declared.antt =====
-- Every handler answers with the statuses that api.gen.go declares for its operation.
use eastbay_overland_rally_p.Prelude.{ℕ, List, [], ◌∷◌, Option, refl, string_eq, nat_eq}
use eastbay_overland_rally_p.Ports.{Result, ok, err}
use eastbay_overland_rally_p.Ports.Errors.{statuses}
use eastbay_overland_rally_p.Trips.Publishing.Errors.{publish_trip-Throws, cancel_trip-Throws}
use eastbay_overland_rally_p.Trips.Queries.Errors.{
  list_visible_trips_for_member-Within, list_my_draft_trips-Within, get_trip_details-Within,
  get_my_rsvp_for_trip-Within, get_trip_rsvp_summary-Within,
}
use eastbay_overland_rally_p.Members.Directory.Errors.{
  list_all-Within, search_members-Within, get_my_member_profile-Within,
}
use eastbay_overland_rally_p.Members.Accounts.Errors.{create_my_member-Throws}
use eastbay_overland_rally_p.Ports.Idempotency.{IdempotencyStore}
use eastbay_overland_rally_p.Service.{Backend}
use eastbay_overland_rally_p.Http.Handler.{
  Context, Reply, replied, refused, Server, Site, Handler, serve,
}
use eastbay_overland_rally_p.Http.MemberHandlers
use eastbay_overland_rally_p.Http.TripHandlers
use eastbay_overland_rally_p.Http.PlanningHandlers
use eastbay_overland_rally_p.Http.Requests.{
  ApiRequest, keyed, creates_my_member, cancels_without_key, publishes, lists_members,
  searches_members, gets_my_profile, lists_visible_trips, lists_my_drafts, gets_details,
  gets_my_rsvp, gets_rsvp_summary, outline, serve_request,
}
use eastbay_overland_rally_p.Http.Statuses.{
  IsDeclared, ForeignBelow, Answers, authenticate-Answers, body-Answers, inquire-Answers,
  plainly-Answers,
}
use eastbay_overland_rally_p.Http.Statuses.Keyed.{
  success_of, refusals_of, listed, member-Answers, handle-Answers,
}

outline-IsDeclared :
    {R A : Type 0} (success : ℕ) (refusals : List ℕ) (r : Result (Reply R)) (a : A)
    → IsDeclared success refusals r
    → IsDeclared success refusals (outline (r, a)).0
outline-IsDeclared success refusals (err e) a h = h
outline-IsDeclared success refusals (ok (replied status r)) a h = h
outline-IsDeclared success refusals (ok (refused status e)) a h = h

module _ {B : Backend} {idem : Option IdempotencyStore} (s : Server B idem) (ctx : Context)
    (below : ForeignBelow s) where
  outlined :
      {R : Type 0} (q : ApiRequest) (h : Handler B idem R (Reply R)) (site : Site B idem)
      → Answers ctx (success_of q) (refusals_of q) h
      → IsDeclared (success_of q) (refusals_of q) (outline (serve h site)).0
  unfolding Answers
  outlined q h site p =
      outline-IsDeclared _ (refusals_of q) (serve h site).0 (serve h site).1 (p site)

  -- If neither the repositories nor the store of replies nor json.Marshal return an error of the
  -- application, then every request that reaches a handler is answered with the status of success
  -- that api.gen.go declares for its operation, with one of the statuses of refusal declared for it,
  -- or with an error of Go that is no error of the application. So no error of the application is
  -- lost in the switch of a handler.
  pub serve_request-IsDeclared :
      (q : ApiRequest) (site : Site B idem)
      → IsDeclared (success_of q) (refusals_of q) (serve_request s ctx q site).0
  unfolding serve_request MemberHandlers.create_my_member PlanningHandlers.cancel_trip
      TripHandlers.publish_trip MemberHandlers.list_members MemberHandlers.search_members
      MemberHandlers.get_my_member_profile TripHandlers.list_visible_trips_for_member
      TripHandlers.list_my_draft_trips TripHandlers.get_trip_details
      TripHandlers.get_my_rsvp_for_trip TripHandlers.get_trip_rsvp_summary
  serve_request-IsDeclared (keyed key o q) site =
      outlined (keyed key o q) _ site (handle-Answers s ctx below key o q)
  serve_request-IsDeclared (creates_my_member body) site =
      outlined (creates_my_member body) _ site (
        authenticate-Answers ctx 201 (401 ∷ 409 ∷ 422 ∷ []) _ refl (λ sub.
          body-Answers ctx 201 (401 ∷ 409 ∷ 422 ∷ []) body _ refl (λ b.
            plainly-Answers idem ctx 201 (401 ∷ 409 ∷ 422 ∷ []) _ _ _ (listed (409 ∷ 422 ∷ []))
              (create_my_member-Throws below.repositories s.members sub _))))
  serve_request-IsDeclared gets_my_profile site = outlined gets_my_profile _ site (
      authenticate-Answers ctx 200 (401 ∷ 404 ∷ []) _ refl (λ sub.
        inquire-Answers idem ctx 200 (401 ∷ 404 ∷ []) (404 ∷ []) _ _ _ (listed (404 ∷ []))
          (get_my_member_profile-Within below.repositories s.members sub)))
  serve_request-IsDeclared (cancels_without_key trip) site =
      outlined (cancels_without_key trip) _ site (
        member-Answers s ctx below 200 (401 ∷ 404 ∷ 409 ∷ 422 ∷ []) refl _ (λ sub me.
          plainly-Answers idem ctx 200 (401 ∷ 404 ∷ 409 ∷ 422 ∷ []) _ _ _ (listed statuses)
            (cancel_trip-Throws below.repositories me.id trip)))
  serve_request-IsDeclared (publishes trip) site = outlined (publishes trip) _ site (
      member-Answers s ctx below 200 (401 ∷ 404 ∷ 409 ∷ 422 ∷ []) refl _ (λ sub me.
        plainly-Answers idem ctx 200 (401 ∷ 404 ∷ 409 ∷ 422 ∷ []) _ _ _ (listed statuses)
          (publish_trip-Throws below.repositories me.id trip)))
  serve_request-IsDeclared (lists_members flag) site = outlined (lists_members flag) _ site (
      member-Answers s ctx below 200 (401 ∷ []) refl _ (λ sub me.
        inquire-Answers idem ctx 200 (401 ∷ []) [] _ _ _ (listed [])
          (list_all-Within below.repositories s.members sub _)))
  serve_request-IsDeclared (searches_members q) site = outlined (searches_members q) _ site (
      member-Answers s ctx below 200 (401 ∷ 422 ∷ []) refl _ (λ sub me.
        inquire-Answers idem ctx 200 (401 ∷ 422 ∷ []) (422 ∷ []) _ _ _ (listed (422 ∷ []))
          (search_members-Within below.repositories s.members q)))
  serve_request-IsDeclared lists_visible_trips site = outlined lists_visible_trips _ site (
      member-Answers s ctx below 200 (401 ∷ []) refl _ (λ sub me.
        inquire-Answers idem ctx 200 (401 ∷ []) [] _ _ _ (listed [])
          (list_visible_trips_for_member-Within below.repositories me.id)))
  serve_request-IsDeclared lists_my_drafts site = outlined lists_my_drafts _ site (
      member-Answers s ctx below 200 (401 ∷ []) refl _ (λ sub me.
        inquire-Answers idem ctx 200 (401 ∷ []) [] _ _ _ (listed [])
          (list_my_draft_trips-Within below.repositories me.id)))
  serve_request-IsDeclared (gets_details trip) site = outlined (gets_details trip) _ site (
      member-Answers s ctx below 200 (401 ∷ 404 ∷ []) refl _ (λ sub me.
        inquire-Answers idem ctx 200 (401 ∷ 404 ∷ []) (404 ∷ []) _ _ _ (listed (404 ∷ []))
          (λ w. get_trip_details-Within below.repositories me.id w trip)))
  serve_request-IsDeclared (gets_my_rsvp trip) site = outlined (gets_my_rsvp trip) _ site (
      member-Answers s ctx below 200 (401 ∷ 404 ∷ 409 ∷ []) refl _ (λ sub me.
        inquire-Answers idem ctx 200 (401 ∷ 404 ∷ 409 ∷ []) (404 ∷ 409 ∷ []) _ _ _
          (listed (404 ∷ 409 ∷ []))
          (λ w. get_my_rsvp_for_trip-Within below.repositories me.id w trip)))
  serve_request-IsDeclared (gets_rsvp_summary trip) site =
      outlined (gets_rsvp_summary trip) _ site (
        member-Answers s ctx below 200 (401 ∷ 404 ∷ 409 ∷ []) refl _ (λ sub me.
          inquire-Answers idem ctx 200 (401 ∷ 404 ∷ 409 ∷ []) (404 ∷ 409 ∷ []) _ _ _
            (listed (404 ∷ 409 ∷ []))
            (λ w. get_trip_rsvp_summary-Within below.repositories me.id w trip)))
