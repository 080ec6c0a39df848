-- ===== src/Trips/Views.antt =====
-- The read models of service.go: toDomainSummary, toDomainDetails, loadOrganizerSummaries,
-- loadMemberSummariesSorted, tripRSVPSummaryForTrip, myRSVPForTrip and tripDetailsForTrip. A clone
-- of a pointer is the value itself.
use eastbay_overland_rally_p.Prelude.{
  Bool, true, false, List, [], ◌∷◌, Option, none, some, pos, length, ◌==◌, string_eq, if◌then◌else◌,
}
use eastbay_overland_rally_p.Text.{Unicode, to_lower, str_lt}
use eastbay_overland_rally_p.Sorting.{sort_slice}
use eastbay_overland_rally_p.Domain.{
  Trip, MemberId, Member, MemberSummary, TripSummary, TripDetails, TripRsvpSummary, MyRsvp, Rsvp,
  RsvpResponse, rsvp_yes, rsvp_no, TripStatus, published, canceled, is_draft, is_published,
}
use eastbay_overland_rally_p.Ports.{Result, ok, ◌>>=◌}
use eastbay_overland_rally_p.Service.{Backend, World}

unfoldable pub to_domain_summary : Trip → TripSummary
to_domain_summary t = record {
  id = t.id;
  name = t.name;
  start_date = t.start_date;
  end_date = t.end_date;
  status = t.status;
  draft_visibility = if is_draft t.status then some t.draft_visibility else none;
  capacity_rigs = t.capacity_rigs;
  attending_rigs = if is_published t.status then t.attending_rigs else none;
}

unfoldable pub to_domain_details : Trip → TripDetails
to_domain_details t = record {
  summary = to_domain_summary t;
  description = t.description;
  difficulty_text = t.difficulty_text;
  meeting_location = t.meeting_location;
  comms_requirements_text = t.comms_requirements_text;
  recommended_requirements_text = t.recommended_requirements_text;
  organizers = [];
  artifacts = [];
  rsvp_summary = none;
  my_rsvp = none;
  rsvp_actions_enabled = false;
}

abbrev pub to_member_summary : Member → MemberSummary
to_member_summary m = record {
  id = m.id;
  display_name = m.display_name;
  email = m.email;
  group_alias_email = m.group_alias_email;
}

-- the comparison of sort.Slice in loadMemberSummariesSorted
unfoldable pub summary_less : Unicode → MemberSummary → MemberSummary → Bool
summary_less u a b =
    let di = to_lower u a.display_name in
    let dj = to_lower u b.display_name in if di == dj then str_lt a.id b.id else str_lt di dj

-- the two slices that tripRSVPSummaryForTrip fills in one loop
unfoldable pub ids_with : (RsvpResponse → Bool) → List Rsvp → List MemberId
ids_with p [] = []
ids_with p (r ∷ rs) = let rest = ids_with p rs in if p r.status then r.member_id ∷ rest else rest

abbrev pub says_yes : RsvpResponse → Bool
says_yes rsvp_yes = true
says_yes _ = false

abbrev pub says_no : RsvpResponse → Bool
says_no rsvp_no = true
says_no _ = false

module _ (B : Backend) where
  -- loadOrganizerSummaries: in the order of the identifiers; the first failing lookup ends it
  unfoldable pub load_organizer_summaries : List MemberId → World B → Result (List MemberSummary)
  load_organizer_summaries [] w = ok []
  load_organizer_summaries (id ∷ ids) w = do
    m ← B.members.get_by_id id w.members
    rest ← load_organizer_summaries ids w
    ok (to_member_summary m ∷ rest)

  unfoldable pub load_member_summaries_sorted :
      List MemberId → World B → Result (List MemberSummary)
  load_member_summaries_sorted ids w = do
    out ← load_organizer_summaries ids w
    ok (sort_slice (summary_less B.unicode) out)

  unfoldable pub trip_rsvp_summary_for_trip : Trip → World B → Result TripRsvpSummary
  unfolding ids_with
  trip_rsvp_summary_for_trip t w = do
    recs ← B.rsvps.list_by_trip t.id w.rsvps
    yes_members ← load_member_summaries_sorted (ids_with says_yes recs) w
    no_members ← load_member_summaries_sorted (ids_with says_no recs) w
    ok (record {
      capacity_rigs = t.capacity_rigs;
      attending_rigs = pos (length yes_members);
      attending_members = yes_members;
      not_attending_members = no_members;
    })

  unfoldable pub my_rsvp_for_trip : Trip → MemberId → World B → Result MyRsvp
  my_rsvp_for_trip t caller w = do
    rec ← B.rsvps.get t.id caller w.rsvps
    ok (record {
      trip_id = t.id;
      member_id = caller;
      response = rec.status;
      updated_at = rec.updated_at;
    })

  -- the summary is there for published and canceled trips
  unfoldable pub rsvp_summary_for_status :
      TripStatus → Trip → World B → Result (Option TripRsvpSummary)
  rsvp_summary_for_status published t w = do sum ← trip_rsvp_summary_for_trip t w; ok (some sum)
  rsvp_summary_for_status canceled t w = do sum ← trip_rsvp_summary_for_trip t w; ok (some sum)
  rsvp_summary_for_status _ t w = ok none

  -- tripDetailsForTrip: no caller, so no answer of the caller
  unfoldable pub trip_details_for_trip : Trip → World B → Result TripDetails
  unfolding to_domain_details rsvp_summary_for_status
  trip_details_for_trip t w = do
    orgs ← load_organizer_summaries t.organizer_member_ids w
    sum ← rsvp_summary_for_status t.status t w
    let d = to_domain_details t
    ok (record d {
      organizers = orgs;
      artifacts = t.artifacts;
      rsvp_actions_enabled = is_published t.status;
      rsvp_summary = sum;
      my_rsvp = none;
    })
