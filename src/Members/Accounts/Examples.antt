-- ===== src/Members/Accounts/Examples.antt =====
-- The member service on the small planner.
use eastbay_overland_rally_p.Prelude.{
  pos, ◌≡◌, ◌⊎◌, refl, true, false, List, [], ◌∷◌, none, arith, eq_iff, string_eq,
}
use eastbay_overland_rally_p.Prelude.Assoc.{lookup, insert}
use eastbay_overland_rally_p.Sorting.{sort_slice}
use eastbay_overland_rally_p.Text.{
  is_space, split_words, fields, join, normalize_human_name, trim_space, map_chars, to_lower,
  equal_fold,
}
use eastbay_overland_rally_p.Domain.{Member, MemberId}
use eastbay_overland_rally_p.Ports.{ok}
use eastbay_overland_rally_p.Demo.{demo, start, at, no_tables, member}
use eastbay_overland_rally_p.Memory.Members.{
  get_by_id, get_by_subject, create, update, list_members, member_less,
}
use eastbay_overland_rally_p.Memory.Members.Contract.{memory_members-MemberLaws}
use eastbay_overland_rally_p.Trips.Types.{unspecified, null, value}
use eastbay_overland_rally_p.Members.Types.{
  Settings, address, CreateMyMemberInput, UpdateMyMemberProfileInput,
}
use eastbay_overland_rally_p.Members.Profile.{
  validate_email, update_name, update_group_alias, update_vehicle, create_vehicle_profile,
}
use eastbay_overland_rally_p.Members.Directory.{
  contains_member_id, no_email, ensure_email_unique, update_email, list_all, get_my_member_profile,
}
use eastbay_overland_rally_p.Members.Directory.Listing.{list_all-caller}
use eastbay_overland_rally_p.Members.Accounts.{create_my_member, update_my_member_profile}
use eastbay_overland_rally_p.Members.Accounts.Emails.{SameAccount}
use eastbay_overland_rally_p.Members.Accounts.Replies.{
  get_my_member_profile-create_my_member, get_my_member_profile-update_my_member_profile,
}
use eastbay_overland_rally_p.Members.History.{
  joins, edits, account_calls, IsOrderly, account_calls-IsOrderly,
}

abbrev plain : Settings
plain = record { parse_address = λ text. address text; clock = at; search_limit = pos 50 }

abbrev cy_joins : CreateMyMemberInput
cy_joins = record {
  display_name = " Cy  Dee ";
  email = "cy@x.org";
  group_alias_email = none;
  vehicle_profile = none;
}

abbrev bob_edits : UpdateMyMemberProfileInput
bob_edits = record {
  display_name = value "Robert";
  email = value "bob@x.org";
  group_alias_email = null;
  vehicle_profile = unspecified;
}

start_members :
    (i : MemberId) (a : Member)
    → get_by_id i start.members ≡ ok a
    → ((i ≡ "m-ann") × (a.id ≡ i) × (a.email ≡ "Ann"))
      ⊎ ((i ≡ "m-bob") × (a.id ≡ i) × (a.email ≡ "Bob"))
unfolding get_by_id lookup
start_members i a h = ground (arith, eq_iff "m-ann" i, eq_iff "m-bob" i)

ann_is_not_bob :
    (equal_fold no_tables "Ann" "Bob" ≡ false) × (equal_fold no_tables "Bob" "Ann" ≡ false)
unfolding equal_fold map_chars
ann_is_not_bob = (refl, refl)

start-IsOrderly : IsOrderly demo (memory_members-MemberLaws no_tables) plain start
start-IsOrderly = (
  λ i m h. ground (arith, start_members i m h),
  λ i j a b ga gb same. ground (arith, start_members i a ga, start_members j b gb, ann_is_not_bob),
)

account_calls-IsOrderly_example :
    IsOrderly demo
      (memory_members-MemberLaws no_tables)
      plain
      (account_calls demo plain start (("s-cy", joins cy_joins) ∷ ("m-bob", edits bob_edits) ∷ []))
account_calls-IsOrderly_example =
    account_calls-IsOrderly demo (memory_members-MemberLaws no_tables) plain start
      (("s-cy", joins cy_joins) ∷ ("m-bob", edits bob_edits) ∷ []) start-IsOrderly

abbrev cy : Member
cy = record {
  id = "m-new";
  subject = "s-cy";
  display_name = "Cy Dee";
  email = "cy@x.org";
  group_alias_email = none;
  vehicle_profile = none;
  is_active = true;
  created_at = at 100;
  updated_at = at 100;
}

abbrev robert : Member
robert = record (member "m-bob" "Bob") {
  display_name = "Robert";
  email = "bob@x.org";
  updated_at = at 100;
}

cy_is_created : (create_my_member demo plain "s-cy" cy_joins start).0 ≡ ok cy
unfolding create_my_member get_by_subject lookup normalize_human_name fields split_words is_space
    join trim_space validate_email ensure_email_unique no_email list_members sort_slice member_less
    to_lower equal_fold map_chars create insert create_vehicle_profile
cy_is_created = refl

robert_is_stored : (update_my_member_profile demo plain "m-bob" bob_edits start).0 ≡ ok robert
unfolding update_my_member_profile get_by_subject lookup normalize_human_name fields split_words
    is_space join trim_space validate_email ensure_email_unique no_email list_members sort_slice
    member_less to_lower equal_fold map_chars update insert update_name update_email
    update_group_alias update_vehicle
robert_is_stored = refl

get_my_member_profile-create_my_member_example :
    get_my_member_profile demo plain "s-cy" (create_my_member demo plain "s-cy" cy_joins start).1
    ≡ ok cy
get_my_member_profile-create_my_member_example =
    get_my_member_profile-create_my_member demo (memory_members-MemberLaws no_tables) plain "s-cy"
      start cy_joins cy cy_is_created

get_my_member_profile-update_my_member_profile_example :
    (get_my_member_profile demo plain "m-bob"
        (update_my_member_profile demo plain "m-bob" bob_edits start).1
      ≡ ok robert)
    × ((old : Member) × (get_by_subject "m-bob" start.members ≡ ok old) × SameAccount old robert)
get_my_member_profile-update_my_member_profile_example =
    get_my_member_profile-update_my_member_profile demo (memory_members-MemberLaws no_tables) plain
      "m-bob" start bob_edits robert start-IsOrderly.0 robert_is_stored

abbrev everyone : List Member
everyone = member "m-ann" "Ann" ∷ member "m-bob" "Bob" ∷ []

everyone_is_listed : list_all demo plain "m-bob" false start ≡ ok everyone
unfolding list_all list_members sort_slice get_by_subject lookup member_less to_lower map_chars
everyone_is_listed = refl

bob_is_found : get_by_subject "m-bob" start.members ≡ ok (member "m-bob" "Bob")
unfolding get_by_subject lookup
bob_is_found = refl

list_all-caller_example : contains_member_id everyone "m-bob" ≡ true
list_all-caller_example =
    list_all-caller demo (memory_members-MemberLaws no_tables) plain "m-bob" false start
      (member "m-bob" "Bob") everyone start-IsOrderly.0 bob_is_found everyone_is_listed
