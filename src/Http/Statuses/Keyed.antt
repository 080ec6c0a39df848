-- ===== src/Http/Statuses/Keyed.antt =====
-- The status of success and the statuses of refusal that api.gen.go declares for each operation, by
-- the names of its response objects (UpdateTrip200JSONResponse, UpdateTrip401JSONResponse, ...).
use eastbay_overland_rally_p.Prelude.{
  ℕ, String, Bool, true, false, ◌||◌, List, [], ◌∷◌, Option, ◌≡◌, refl, inl, inr, Bool-cases, ◌==◌,
  string_eq, nat_eq,
}
use eastbay_overland_rally_p.Domain.{SubjectId, Member}
use eastbay_overland_rally_p.Ports.Errors.{statuses, declares, Within, bind-Within}
use eastbay_overland_rally_p.Trips.Drafts.Errors.{
  create_trip_draft-Throws, update_trip-Throws, set_trip_draft_visibility-Throws,
}
use eastbay_overland_rally_p.Trips.Organizers.Errors.{
  add_trip_organizer-Throws, remove_trip_organizer-Throws,
}
use eastbay_overland_rally_p.Trips.Publishing.Errors.{cancel_trip-Throws}
use eastbay_overland_rally_p.Trips.Rsvps.Errors.{set_my_rsvp-Throws}
use eastbay_overland_rally_p.Members.Accounts.Errors.{update_my_member_profile-Throws}
use eastbay_overland_rally_p.Http.Codec.{Codec, Document}
use eastbay_overland_rally_p.Http.Hashes.{digest_of}
use eastbay_overland_rally_p.Ports.Idempotency.{IdempotencyStore}
use eastbay_overland_rally_p.Service.{Backend}
use eastbay_overland_rally_p.Http.Handler.{
  Context, Reply, Server, Handler, authenticate, caller_of, one_of, create_status, ◌>>=◌,
}
use eastbay_overland_rally_p.Http.Operations.{Operation, Request, handle}
use eastbay_overland_rally_p.Http.MemberHandlers
use eastbay_overland_rally_p.Http.PlanningHandlers
use eastbay_overland_rally_p.Http.Requests.{
  ApiRequest, keyed, creates_my_member, cancels_without_key, publishes, searches_members,
  gets_my_profile, gets_details, gets_my_rsvp, gets_rsvp_summary,
}
use eastbay_overland_rally_p.Http.Statuses.{
  ForeignBelow, one_of-declares, Translates, Answers, authenticate-Answers, caller-Answers,
  body-Answers, must-Answers, plainly-Answers,
}
use eastbay_overland_rally_p.Http.Statuses.Replays.{begin-Answers, once-Answers}

abbrev pub success_of : ApiRequest → ℕ
success_of (keyed key Operation.creates_draft q) = 201
success_of (creates_my_member body) = 201
success_of _ = 200

abbrev pub refusals_of : ApiRequest → List ℕ
refusals_of (keyed key Operation.creates_draft q) = 401 ∷ 409 ∷ 422 ∷ []
refusals_of (keyed key o q) = 401 ∷ 404 ∷ 409 ∷ 422 ∷ []
refusals_of (creates_my_member body) = 401 ∷ 409 ∷ 422 ∷ []
refusals_of (cancels_without_key trip) = 401 ∷ 404 ∷ 409 ∷ 422 ∷ []
refusals_of (publishes trip) = 401 ∷ 404 ∷ 409 ∷ 422 ∷ []
refusals_of (searches_members q) = 401 ∷ 422 ∷ []
refusals_of gets_my_profile = 401 ∷ 404 ∷ []
refusals_of (gets_details trip) = 401 ∷ 404 ∷ []
refusals_of (gets_my_rsvp trip) = 401 ∷ 404 ∷ 409 ∷ []
refusals_of (gets_rsvp_summary trip) = 401 ∷ 404 ∷ 409 ∷ []
refusals_of _ = 401 ∷ []

last_true : (b : Bool) → (b || true) ≡ true
last_true true = refl
last_true false = refl

-- the cases of a switch, beside 401
pub listed : (cs : List ℕ) → Translates cs (401 ∷ cs) (one_of cs)
listed cs s h = (s, one_of-declares cs s h, rw h (last_true (s == 401)))

create_status-Translates : Translates statuses (401 ∷ 409 ∷ 422 ∷ []) create_status
create_status-Translates s h = elim (Bool-cases (s == 404)) [
  | inl missing ↦ (409, rw missing refl, refl)
  | inr other ↦
      let later : declares (409 ∷ 422 ∷ []) s ≡ true = rw other at h in
      (s, rw other (one_of-declares (409 ∷ 422 ∷ []) s later), rw later (last_true (s == 401)))
]

digest_of-Within :
    (c : Codec)
    → ((d : Document) → Within [] (c.document d))
    → (d : Document) → Within [] (digest_of c d)
unfolding digest_of
digest_of-Within c h d = bind-Within [] (c.document d) _ (h d) (λ raw. tt)

module _ {B : Backend} {idem : Option IdempotencyStore} (s : Server B idem) (ctx : Context)
    (below : ForeignBelow s) where
  module _ {R : Type 0} (success : ℕ) (refusals : List ℕ) (h : declares refusals 401 ≡ true) where
    pub member-Answers :
        (k : SubjectId → Member → Handler B idem R (Reply R))
        → ((sub : SubjectId) (me : Member) → Answers ctx success refusals (k sub me))
        → Answers ctx success refusals (authenticate ctx >>= λ sub. caller_of s ctx sub >>= k sub)
    member-Answers k p =
        authenticate-Answers ctx success refusals _ h
          λ sub. caller-Answers ctx success refusals s sub (k sub) h below.repositories (p sub)

  pub handle-Answers :
      (key : String) (o : Operation) (q : Request o)
      → Answers ctx
          (success_of (keyed key o q))
          (refusals_of (keyed key o q))
          (handle s ctx key o q)
  unfolding handle MemberHandlers.update_my_member_profile PlanningHandlers.create_trip_draft
      PlanningHandlers.update_trip PlanningHandlers.set_trip_draft_visibility
      PlanningHandlers.cancel_trip PlanningHandlers.cancel_with_key
      PlanningHandlers.add_trip_organizer PlanningHandlers.remove_trip_organizer
      PlanningHandlers.set_my_rsvp
  handle-Answers key Operation.updates_profile body = authenticate-Answers ctx 200 _ _ refl λ sub.
      body-Answers ctx 200 _ body _ refl λ b.
        must-Answers ctx 200 _ _ _ (digest_of-Within s.codec below.documents _) λ hash.
          once-Answers ctx _ _ refl s _ _ _ below.replies (listed statuses)
            (update_my_member_profile-Throws below.repositories s.members sub _)
  handle-Answers key Operation.creates_draft body = member-Answers 201 _ refl _ λ sub me.
      body-Answers ctx 201 _ body _ refl λ b.
        must-Answers ctx 201 _ _ _ (digest_of-Within s.codec below.documents _) λ hash.
          once-Answers ctx _ _ refl s _ _ _ below.replies create_status-Translates
            (create_trip_draft-Throws below.repositories me.id _)
  handle-Answers key Operation.updates_trip (trip, body) = member-Answers 200 _ refl _ λ sub me.
      body-Answers ctx 200 _ body _ refl λ b.
        must-Answers ctx 200 _ _ _ (digest_of-Within s.codec below.documents _) λ hash.
          once-Answers ctx _ _ refl s _ _ _ below.replies (listed statuses)
            (update_trip-Throws below.repositories me.id trip _)
  handle-Answers key Operation.sets_visibility (trip, body) = member-Answers 200 _ refl _ λ sub me.
      body-Answers ctx 200 _ body _ refl λ b.
        must-Answers ctx 200 _ _ _ (digest_of-Within s.codec below.documents _) λ hash.
          once-Answers ctx _ _ refl s _ _ _ below.replies (listed statuses)
            (set_trip_draft_visibility-Throws below.repositories me.id trip _)
  handle-Answers key Operation.adds_organizer (trip, body) = member-Answers 200 _ refl _ λ sub me.
      body-Answers ctx 200 _ body _ refl λ b.
        must-Answers ctx 200 _ _ _ (digest_of-Within s.codec below.documents _) λ hash.
          once-Answers ctx _ _ refl s _ _ _ below.replies (listed statuses)
            (add_trip_organizer-Throws below.repositories me.id trip _)
  handle-Answers key Operation.sets_rsvp (trip, body) = member-Answers 200 _ refl _ λ sub me.
      body-Answers ctx 200 _ body _ refl λ b.
        must-Answers ctx 200 _ _ _ (digest_of-Within s.codec below.documents _) λ hash.
          once-Answers ctx _ _ refl s _ _ _ below.replies (listed statuses)
            (set_my_rsvp-Throws below.repositories me.id trip _)
  handle-Answers key Operation.removes_organizer (trip, member) =
      member-Answers 200 _ refl _ λ sub me.
        must-Answers ctx 200 _ _ _ (digest_of-Within s.codec below.documents _) λ hash.
          once-Answers ctx _ _ refl s _ _ _ below.replies (listed statuses)
            (remove_trip_organizer-Throws below.repositories me.id trip member)
  handle-Answers key Operation.cancels trip = member-Answers 200 _ refl _ λ sub me.
      must-Answers ctx 200 _ _ _ (digest_of-Within s.codec below.documents _) λ hash.
        elim (Bool-cases (key == "")) [
          | inl empty ↦ rw empty (
              begin-Answers ctx _ _ refl s _ below.replies (
                plainly-Answers idem ctx 200 _ _ _ _ (listed statuses)
                  (cancel_trip-Throws below.repositories me.id trip)))
          | inr present ↦ rw present (
              once-Answers ctx _ _ refl s _ _ _ below.replies (listed statuses)
                (cancel_trip-Throws below.repositories me.id trip))
        ]
