-- ===== src/Members/Directory.antt =====
-- The methods of service.go that read: ListMembers, SearchMembers and GetMyMemberProfile, and
-- ensureEmailUnique.
pub mod Listing
pub mod Errors
use eastbay_overland_rally_p.Prelude.{
  ℕ, String, Bool, true, false, not, ◌&&◌, ltb, List, [], ◌∷◌, ◌++◌, ◌==◌, string_eq, if◌then◌else◌,
}
use eastbay_overland_rally_p.Text.{Unicode, trim_space, rune_count, equal_fold, to_lower, str_lt}
use eastbay_overland_rally_p.Sorting.{sort_slice}
use eastbay_overland_rally_p.Domain.{Member, MemberId, SubjectId}
use eastbay_overland_rally_p.Ports.{
  Result, ok, err, Failure, member_not_found, require, ◌>>=◌, ◌>>◌,
}
use eastbay_overland_rally_p.Service.{Backend, World}
use eastbay_overland_rally_p.Trips.Types.{Optional, unspecified, null, value, validation_error}
use eastbay_overland_rally_p.Members.Profile.{valid_address}
use eastbay_overland_rally_p.Members.Types.{Settings, not_provisioned, email_in_use}

unfoldable pub contains_member_id : List Member → MemberId → Bool
contains_member_id [] id = false
contains_member_id (m ∷ ms) id = if m.id == id then true else contains_member_id ms id

-- the comparison of sortMembersByDisplayName
abbrev pub display_less : Unicode → Member → Member → Bool
display_less u a b =
    let di = to_lower u a.display_name in
    let dj = to_lower u b.display_name in if di == dj then str_lt a.id b.id else str_lt di dj

-- "Ensure caller is included even when inactive"; an error of the lookup is dropped
abbrev pub with_caller : Unicode → Result Member → List Member → List Member
with_caller u (err e) out = out
with_caller u (ok me) out =
    if not me.is_active && not (contains_member_id out me.id)
    then sort_slice (display_less u) (out ++ me ∷ [])
    else out

-- the loop of ensureEmailUnique
unfoldable pub no_email : Unicode → String → MemberId → List Member → Result Unit
no_email u email exclude [] = ok tt
no_email u email exclude (m ∷ ms) =
    let rest = no_email u email exclude ms in
    if not (exclude == "") && m.id == exclude
    then rest
    else if equal_fold u m.email email
    then err email_in_use
    else rest

-- memberrepo.ErrNotFound means that the subject has no profile
abbrev pub or_not_provisioned : Result Member → Result Member
or_not_provisioned (err member_not_found) = err not_provisioned
or_not_provisioned r = r

module _ (B : Backend) (s : Settings) where
  unfoldable pub list_all : SubjectId → Bool → World B → Result (List Member)
  list_all subject include_inactive w = do
    ms ← B.members.list_members include_inactive w.members
    ok (
        if include_inactive
        then ms
        else with_caller B.unicode (B.members.get_by_subject subject w.members) ms)

  unfoldable pub search_members : String → World B → Result (List Member)
  search_members query w = do
    let q = trim_space query
    require (not (ltb (rune_count q) 3))
        (validation_error "invalid search query" "q" "must be at least 3 characters")
    B.members.search_active_by_display_name q s.search_limit w.members

  unfoldable pub get_my_member_profile : SubjectId → World B → Result Member
  get_my_member_profile subject w = or_not_provisioned (B.members.get_by_subject subject w.members)

  -- ensureEmailUnique
  unfoldable pub ensure_email_unique : String → MemberId → World B → Result Unit
  ensure_email_unique email exclude w = do
    ms ← B.members.list_members true w.members
    no_email B.unicode email exclude ms

  -- the e-mail address is tested against those of the other members
  unfoldable pub update_email : Optional String → Member → World B → Result Member
  update_email unspecified m w = ok m
  update_email null m w = err (validation_error "invalid email" "email" "cannot be null")
  update_email (value v) m w = do
    email ← valid_address s "invalid email" "email" v
    ensure_email_unique email m.id w
    ok (record m { email = email })
