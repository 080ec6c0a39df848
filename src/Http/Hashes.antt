-- ===== src/Http/Hashes.antt =====
-- internal/adapters/httpapi/server.go, the hashes of bodies that tell a repeated request from a new
-- one: hashUpdateMyMemberProfileBody and its like. An error of json.Marshal is returned.
use eastbay_overland_rally_p.Prelude.{String}
use mathlib.Core.Option as Opt
use eastbay_overland_rally_p.Text.{trim_space, normalize_human_name}
use eastbay_overland_rally_p.Ports.{Result, ok, ◌>>=◌}
use eastbay_overland_rally_p.Http.Oas.{
  Nullable, absent, explicit_null, given, UpdateMyMemberProfileRequest, CreateTripDraftRequest,
  UpdateTripRequest, SetDraftVisibilityRequest, AddOrganizerRequest, SetMyRsvpRequest,
}
use eastbay_overland_rally_p.Http.Codec.{
  Codec, Document, profile_update, draft_creation, trip_update, visibility_change,
  organizer_addition, organizer_removal, cancellation, answer,
}

-- n.Set(f(v)) where there is a value
abbrev pub on_value : {A : Type 0} → (A → A) → Nullable A → Nullable A
on_value f absent = absent
on_value f explicit_null = explicit_null
on_value f (given a) = given (f a)

-- the fields that are normalized before hashing
unfoldable pub canonical_profile : UpdateMyMemberProfileRequest → UpdateMyMemberProfileRequest
canonical_profile b = record b {
  display_name = on_value normalize_human_name b.display_name;
  email = Opt.map trim_space b.email;
  group_alias_email = on_value trim_space b.group_alias_email;
}

unfoldable pub canonical_draft : CreateTripDraftRequest → CreateTripDraftRequest
canonical_draft b = record { name = normalize_human_name b.name }

unfoldable pub canonical_trip : UpdateTripRequest → UpdateTripRequest
canonical_trip b = record b { name = Opt.map normalize_human_name b.name }

module _ (c : Codec) where
  -- the sum of the text of a document
  unfoldable pub digest_of : Document → Result String
  digest_of d = do raw ← c.document d; ok (c.digest raw)

  abbrev pub hash_update_my_member_profile_body : UpdateMyMemberProfileRequest → Result String
  hash_update_my_member_profile_body b = digest_of (profile_update (canonical_profile b))

  abbrev pub hash_create_trip_draft_body : CreateTripDraftRequest → Result String
  hash_create_trip_draft_body b = digest_of (draft_creation (canonical_draft b))

  abbrev pub hash_update_trip_body : String → UpdateTripRequest → Result String
  hash_update_trip_body trip b = digest_of (trip_update trip (canonical_trip b))

  abbrev pub hash_set_trip_draft_visibility_body :
      String → SetDraftVisibilityRequest → Result String
  hash_set_trip_draft_visibility_body trip b = digest_of (visibility_change trip b)

  abbrev pub hash_add_trip_organizer_body : String → AddOrganizerRequest → Result String
  hash_add_trip_organizer_body trip b = digest_of (organizer_addition trip b)

  abbrev pub hash_remove_trip_organizer_body : String → String → Result String
  hash_remove_trip_organizer_body trip member = digest_of (organizer_removal trip member)

  abbrev pub hash_cancel_trip_body : String → Result String
  hash_cancel_trip_body trip = digest_of (cancellation trip)

  abbrev pub hash_set_my_rsvp_body : String → SetMyRsvpRequest → Result String
  hash_set_my_rsvp_body trip b = digest_of (answer trip b)
