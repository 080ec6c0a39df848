-- ===== src/Memory/Errors.antt =====
-- The errors of the repositories in memory: those of their ports.
use eastbay_overland_rally_p.Prelude.{
  ℕ, [], Option, none, some, inl, inr, ◌==◌, string_eq, pair_eq, Bool-cases, Option-cases,
}
use eastbay_overland_rally_p.Prelude.Assoc.{lookup}
use eastbay_overland_rally_p.Text.{Unicode}
use eastbay_overland_rally_p.Domain.{Time, Trip, TripId, Member, MemberId, SubjectId, Rsvp}
use eastbay_overland_rally_p.Ports.Errors.{Within}
use eastbay_overland_rally_p.Service.Errors.{ForeignErrors}
use eastbay_overland_rally_p.Memory.Trips
use eastbay_overland_rally_p.Memory.Trips.{TripStore, found_trip, memory_trips}
use eastbay_overland_rally_p.Memory.Members
use eastbay_overland_rally_p.Memory.Members.{MemberStore, found_member, is_bound, memory_members}
use eastbay_overland_rally_p.Memory.Rsvps
use eastbay_overland_rally_p.Memory.Rsvps.{found_rsvp, memory_rsvps}

found_trip-Within : (o : Option Trip) → Within [] (found_trip o)
found_trip-Within none = tt
found_trip-Within (some t) = tt

found_member-Within : (o : Option Member) → Within [] (found_member o)
found_member-Within none = tt
found_member-Within (some m) = tt

found_rsvp-Within : (o : Option Rsvp) → Within [] (found_rsvp o)
found_rsvp-Within none = tt
found_rsvp-Within (some r) = tt

create_trip-Within : (t : Trip) (s : TripStore) → Within [] (Trips.create t s).0
unfolding Trips.create
create_trip-Within t s = elim (Bool-cases (t.id == "")) [
  | inl empty ↦ rw empty tt
  | inr named ↦ rw named (elim (Option-cases (lookup t.id s)) [
    | inl free ↦ rw free tt
    | inr (old, taken) ↦ rw taken tt
  ])
]

save_trip-Within : (t : Trip) (s : TripStore) → Within [] (Trips.save t s).0
unfolding Trips.save
save_trip-Within t s = elim (Bool-cases (t.id == "")) [
  | inl empty ↦ rw empty tt
  | inr named ↦ rw named tt
]

create_member-Within : (m : Member) (s : MemberStore) → Within [] (Members.create m s).0
unfolding Members.create
create_member-Within m s = elim (Bool-cases (m.id == "")) [
  | inl empty ↦ rw empty tt
  | inr named ↦ rw named (elim (Option-cases (lookup m.id s.by_id)) [
    | inr (old, taken) ↦ rw taken tt
    | inl free ↦ rw free (elim (Bool-cases (is_bound (lookup m.subject s.id_by_sub))) [
      | inl bound ↦ rw bound tt
      | inr unbound ↦ rw unbound tt
    ])
  ])
]

update_member-Within : (m : Member) (s : MemberStore) → Within [] (Members.update m s).0
unfolding Members.update
update_member-Within m s = elim (Option-cases (lookup m.id s.by_id)) [
  | inl missing ↦ rw (missing, Within) tt
  | inr (old, found) ↦
      rw (found, Within)
        (elim (Bool-cases (old.subject == m.subject)) [
          | inl same ↦ rw same tt
          | inr other ↦ rw other tt
        ])
]

member_by_subject-Within :
    (sub : SubjectId) (s : MemberStore) → Within [] (Members.get_by_subject sub s)
unfolding Members.get_by_subject
member_by_subject-Within sub s = elim (Option-cases (lookup sub s.id_by_sub)) [
  | inl unbound ↦ rw (unbound, Within) tt
  | inr (id, bound) ↦ rw (bound, Within) (found_member-Within (lookup id s.by_id))
]

-- The repositories in memory return no error of the application.
pub memory-ForeignErrors :
    (u : Unicode) (now : ℕ → Time) (new_trip_id : ℕ → TripId) (new_member_id : ℕ → MemberId)
    → ForeignErrors (record {
      trips = memory_trips;
      members = memory_members u;
      rsvps = memory_rsvps;
      unicode = u;
      now = now;
      new_trip_id = new_trip_id;
      new_member_id = new_member_id;
    })
unfolding Trips.get_by_id Trips.list_published_and_canceled Trips.list_drafts_visible_to
    Members.get_by_id Members.list_members Members.search_active_by_display_name Rsvps.get
    Rsvps.upsert Rsvps.list_by_trip Rsvps.count_yes_by_trip
memory-ForeignErrors u now new_trip_id new_member_id = record {
  trip_created = create_trip-Within;
  trip_saved = save_trip-Within;
  trip_by_id = λ id s. found_trip-Within (lookup id s);
  trips_listed = λ s. tt;
  drafts_listed = λ id s. tt;
  member_created = create_member-Within;
  member_updated = update_member-Within;
  member_by_id = λ id s. found_member-Within (lookup id s.by_id);
  member_by_subject = member_by_subject-Within;
  members_listed = λ all s. tt;
  members_searched = λ q n s. tt;
  rsvp_got = λ id m s. found_rsvp-Within (lookup (id, m) s);
  rsvp_upserted = λ r s. tt;
  rsvps_listed = λ id s. tt;
  rsvps_counted = λ id s. tt;
}
