-- ===== src/Http/Examples.antt =====
-- The small planner behind the handlers of server.go, with the store of replies in memory.
use eastbay_overland_rally_p.Prelude.{
  pos, String, List, arith, eq_iff, [], ◌∷◌, Option, some, ◌≡◌, ◌≢◌, refl, inr, string_eq, nat_eq,
}
use Prim.Native.String.{[] as ε, ◌∷◌ as ◌▹◌, ◌++◌ as ◌·◌}
use eastbay_overland_rally_p.Prelude.Assoc.{lookup, insert}
use eastbay_overland_rally_p.Domain.{RsvpResponse, rsvp_yes, rsvp_no, rsvp_unset, rsvp_other}
use eastbay_overland_rally_p.Ports.{Result, ok, err, backend}
use eastbay_overland_rally_p.Memory.Idempotency
use eastbay_overland_rally_p.Memory.Idempotency.{
  memory_idempotency, memory_idempotency-IdempotencyLaws,
}
use eastbay_overland_rally_p.Memory.Members
use eastbay_overland_rally_p.Memory.Trips
use eastbay_overland_rally_p.Demo.{demo, start, at, secret_draft, member}
use eastbay_overland_rally_p.Members.Types.{address}
use eastbay_overland_rally_p.Members.Directory.{get_my_member_profile}
use eastbay_overland_rally_p.Trips.Access.{is_trip_visible_to_caller}
use eastbay_overland_rally_p.Trips.Secrecy.{IsSecret}
use eastbay_overland_rally_p.Trips.Rsvps.Examples.{bob_comes, bob_sets_yes}
use eastbay_overland_rally_p.Http.Oas.{SetMyRsvpResponse}
use eastbay_overland_rally_p.Http.Convert.{my_rsvp_from_domain}
use eastbay_overland_rally_p.Http.Codec.{
  Codec, CodecLaws, Document, profile_update, draft_creation, trip_update, visibility_change,
  organizer_addition, organizer_removal, cancellation, Format, IsFaithful, answer,
}
use eastbay_overland_rally_p.Http.Handler.{
  Context, replied, key_reuse, unauthorized, not_provisioned, Server, Site, serve, must,
  authenticate, caller_of, body_of, perform, subject_from_context,
}
use eastbay_overland_rally_p.Http.Hashes.{digest_of}
use eastbay_overland_rally_p.Http.Idempotent.{begin, claim_key, replay_record, keep, once}
use eastbay_overland_rally_p.Http.PlanningHandlers
use eastbay_overland_rally_p.Http.Operations.{Operation, Request, handle, format_of}
use eastbay_overland_rally_p.Http.Repeats.{IsProvisioned}
use eastbay_overland_rally_p.Http.Retries.{retry_replays, reused_key_refused}
use eastbay_overland_rally_p.Trips.History.{IsKeyed, Follows}
use eastbay_overland_rally_p.Memory.Trips.Contract.{memory_trips-TripLaws}
use eastbay_overland_rally_p.Http.Histories.{serve_all, serve_all-Follows}
use eastbay_overland_rally_p.Http.Requests.{
  ApiRequest, keyed, cancels_without_key, publishes, serve_request,
}
use eastbay_overland_rally_p.Http.Authority.{IsAuthorized, serve_request-IsAuthorized}
use eastbay_overland_rally_p.Http.Admission.{anonymous_refused, stranger_refused}
use eastbay_overland_rally_p.Http.Statuses.{IsDeclared, ForeignBelow}
use eastbay_overland_rally_p.Ports.Errors.{Within}
use eastbay_overland_rally_p.Memory.Errors.{memory-ForeignErrors}
use eastbay_overland_rally_p.Http.Declared.{serve_request-IsDeclared}
use eastbay_overland_rally_p.Http.Secrecy.{AllAnswered, no_trip, about_trip, secret_trip_hidden}

abbrev text_of : RsvpResponse → String
text_of rsvp_yes = "YES"
text_of rsvp_no = "NO"
text_of rsvp_unset = "UNSET"
text_of (rsvp_other s) = s

abbrev rsvp_text : Document → Result String
rsvp_text (answer trip b) = ok (trip · text_of b.response)
rsvp_text _ = ok "{}"

-- every document of the type is written as one text, and read as one value
abbrev one_text : {A : Type 0} → A → Format A
one_text a = record { marshal = λ b. ok "{}"; unmarshal = λ text. ok a }

one_text-IsFaithful : {A : Type 0} (a : A) → IsFaithful (one_text a)
one_text-IsFaithful a = record { reread = λ b text h. (a, refl, h) }

-- no document of the type can be written
abbrev no_text : {A : Type 0} → Format A
no_text = record { marshal = λ a. err (backend "json"); unmarshal = λ text. err (backend "json") }

no_text-IsFaithful : {A : Type 0} → IsFaithful (no_text {A = A})
no_text-IsFaithful = record { reread = λ a text h. absurd cc }

abbrev tagged : String → String
tagged ε = "-"
tagged (c ▹ s) = c ▹ s

tagged-nonempty : (text : String) → tagged text ≢ ""
tagged-nonempty ε h = absurd cc
tagged-nonempty (c ▹ s) h = absurd cc

abbrev bob_answered : SetMyRsvpResponse
bob_answered = record { my_rsvp = my_rsvp_from_domain bob_comes }

abbrev plain_codec : Codec
plain_codec = record {
  digest = tagged;
  document = rsvp_text;
  profile = no_text;
  created = no_text;
  trip = no_text;
  rsvp = one_text bob_answered;
}

plain_codec-CodecLaws : CodecLaws plain_codec
plain_codec-CodecLaws = record {
  digest-nonempty = tagged-nonempty;
  profile = no_text-IsFaithful;
  created = no_text-IsFaithful;
  trip = no_text-IsFaithful;
  rsvp = one_text-IsFaithful bob_answered;
}

abbrev server : Server demo (some memory_idempotency)
server = record {
  members = record { parse_address = λ text. address text; clock = at; search_limit = pos 50 };
  codec = plain_codec;
  now = at;
}

abbrev open_site : Site demo (some memory_idempotency)
open_site = record { world = start; kept = []; ticks = 7 }

abbrev from_bob : Context
from_bob = record { subject = some "m-bob"; request_id = "r1" }

abbrev from_nobody : Context
from_nobody = record { subject = some ""; request_id = "" }

abbrev from_stranger : Context
from_stranger = record { subject = some "m-zoe"; request_id = "" }

abbrev says : RsvpResponse → Request Operation.sets_rsvp
says r = ("t-live", some (record { response = r }))

-- the site after the first request, while another call has undone its effect on the world
abbrev later_site : Site demo (some memory_idempotency)
later_site = record open_site {
  kept = (serve (handle server from_bob "k1" Operation.sets_rsvp (says rsvp_yes)) open_site).1.kept;
}

bob_is_known : IsProvisioned server from_bob start
unfolding IsProvisioned subject_from_context get_my_member_profile Members.get_by_subject
    Members.get_by_id lookup
bob_is_known sub h = let bob : sub ≡ "m-bob" = cc in (member "m-bob" "Bob", rw bob refl)

bob_succeeds :
    (serve (handle server from_bob "k1" Operation.sets_rsvp (says rsvp_yes)) open_site).0
    ≡ ok (replied 200 bob_answered)
unfolding serve handle PlanningHandlers.set_my_rsvp authenticate subject_from_context caller_of
    get_my_member_profile Members.get_by_subject Members.get_by_id lookup body_of must digest_of
    once begin claim_key replay_record perform keep Idempotency.get Idempotency.put insert
bob_succeeds = rw bob_sets_yes refl

k1_named : ◌≢◌ {A = String} "k1" ""
k1_named h = absurd cc

yes_is_not_no : ◌≢◌ {A = Option String} (some "t-liveYES") (some "t-liveNO")
yes_is_not_no h = absurd cc

retry_replays_example :
    (r' : SetMyRsvpResponse) × (serve
        (handle server from_bob "k1" Operation.sets_rsvp (says rsvp_yes))
        later_site
      ≡ (ok (replied 200 r'), later_site))
    × ((format_of plain_codec Operation.sets_rsvp).marshal r' ≡ ok "{}")
retry_replays_example =
    retry_replays memory_idempotency-IdempotencyLaws server plain_codec-CodecLaws from_bob "k1"
      Operation.sets_rsvp (says rsvp_yes) open_site later_site 200 bob_answered "{}" k1_named
      bob_succeeds refl refl bob_is_known

reused_key_refused_example :
    serve (handle server from_bob "k1" Operation.sets_rsvp (says rsvp_no)) later_site
    ≡ (ok (key_reuse from_bob), later_site)
unfolding digest_of
reused_key_refused_example =
    reused_key_refused memory_idempotency-IdempotencyLaws server plain_codec-CodecLaws from_bob "k1"
      Operation.sets_rsvp (says rsvp_yes) (says rsvp_no) "t-liveNO" open_site later_site 200
      bob_answered "{}" k1_named refl yes_is_not_no bob_succeeds refl refl bob_is_known

serve_request-IsAuthorized_example :
    IsAuthorized server from_bob start
      (serve_request server from_bob (publishes "t-ready") open_site).1.world
serve_request-IsAuthorized_example =
    serve_request-IsAuthorized server from_bob (publishes "t-ready") open_site

anonymous_refused_example :
    serve_request server from_nobody (publishes "t-ready") open_site
    ≡ (ok (unauthorized from_nobody), open_site)
unfolding subject_from_context
anonymous_refused_example =
    anonymous_refused server from_nobody open_site (publishes "t-ready") refl

stranger_refused_example :
    serve_request server from_stranger (publishes "t-ready") open_site
    ≡ (ok (not_provisioned from_stranger), open_site)
unfolding subject_from_context Members.get_by_subject lookup
stranger_refused_example =
    stranger_refused server from_stranger open_site "m-zoe" (publishes "t-ready") refl refl refl

rsvp_text-Within : (d : Document) → Within [] (rsvp_text d)
rsvp_text-Within (profile_update b) = tt
rsvp_text-Within (draft_creation b) = tt
rsvp_text-Within (trip_update trip b) = tt
rsvp_text-Within (visibility_change trip b) = tt
rsvp_text-Within (organizer_addition trip b) = tt
rsvp_text-Within (organizer_removal trip member) = tt
rsvp_text-Within (cancellation trip) = tt
rsvp_text-Within (answer trip b) = tt

below_server : ForeignBelow server
unfolding Idempotency.get
below_server = record {
  repositories = memory-ForeignErrors _ at (λ n. "t-new") (λ n. "m-new");
  replies = λ fp kept. tt;
  documents = rsvp_text-Within;
}

serve_request-IsDeclared_example :
    IsDeclared 200
      (401 ∷ 404 ∷ 409 ∷ 422 ∷ [])
      (serve_request server from_bob (publishes "t-ready") open_site).0
serve_request-IsDeclared_example =
    serve_request-IsDeclared server from_bob below_server (publishes "t-ready") open_site

secret_for_bob : IsSecret demo "m-bob" "t-secret" start
unfolding Trips.get_by_id lookup is_trip_visible_to_caller
secret_for_bob = inr (secret_draft, refl, refl, refl)

secret_trip_hidden_example :
    AllAnswered server from_bob open_site (no_trip from_bob) (about_trip "t-secret")
unfolding subject_from_context get_my_member_profile Members.get_by_subject Members.get_by_id lookup
secret_trip_hidden_example =
    secret_trip_hidden server from_bob open_site "m-bob" (member "m-bob" "Bob") "t-secret" refl refl
      secret_for_bob

start-IsKeyed : IsKeyed demo start
unfolding Trips.get_by_id lookup
start-IsKeyed id t h = ground (arith, eq_iff "t-live" id, eq_iff "t-ready" id, eq_iff "t-secret" id)

-- requests of Bob, of a stranger and of nobody
abbrev season : List (Context × ApiRequest)
season =
    (from_bob, publishes "t-ready")
    ∷ (from_stranger, publishes "t-secret")
    ∷ (from_bob, keyed "k1" Operation.sets_rsvp (says rsvp_yes))
    ∷ (from_bob, cancels_without_key "t-live")
    ∷ (from_nobody, publishes "t-ready")
    ∷ []

serve_all-Follows_example : Follows demo start (serve_all server season open_site).world
serve_all-Follows_example =
    serve_all-Follows server memory_trips-TripLaws season open_site start-IsKeyed
