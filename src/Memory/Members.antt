-- ===== src/Memory/Members.antt =====
-- internal/adapters/memory/memberrepo/repo.go
pub mod Contract
use eastbay_overland_rally_p.Prelude.{
  ℕ, ℤ, pos, negsuc, ltb_ℤ, String, Bool, true, false, not, ◌&&◌, zero, suc, List, [], ◌∷◌, Option,
  none, some, ◌==◌, string_eq, length, if◌then◌else◌,
}
use eastbay_overland_rally_p.Prelude.Assoc.{Assoc, lookup, insert, values}
use eastbay_overland_rally_p.Text.{Unicode, str_lt, to_lower, trim_space, fields, contains}
use eastbay_overland_rally_p.Sorting.{sort_slice}
use eastbay_overland_rally_p.Domain.{Member, MemberId, SubjectId}
use eastbay_overland_rally_p.Ports.{
  Result, ok, err, member_not_found, member_already_exists, subject_already_bound, MemberRepository,
}

pub record MemberStore : Type 0 where
  pub by_id : Assoc MemberId Member
  pub id_by_sub : Assoc SubjectId MemberId

-- `existingID, ok := r.idBySub[m.Subject]; ok && existingID != ""`
abbrev pub is_bound : Option MemberId → Bool
is_bound none = false
is_bound (some id) = not (id == "")

-- Create
unfoldable pub create : Member → MemberStore → Result Unit × MemberStore
create m s = if m.id == "" then (err member_already_exists, s) else elim (lookup m.id s.by_id) [
  | some _ ↦ (err member_already_exists, s)
  | none ↦ if is_bound (lookup m.subject s.id_by_sub) then (err subject_already_bound, s) else (
    ok tt,
    record { by_id = insert m.id m s.by_id; id_by_sub = insert m.subject m.id s.id_by_sub },
  )
]

-- Update: the subject of a member never changes
unfoldable pub update : Member → MemberStore → Result Unit × MemberStore
update m s = elim (lookup m.id s.by_id) [
  | none ↦ (err member_not_found, s)
  | some existing ↦
      if existing.subject == m.subject
      then (ok tt, record s { by_id = insert m.id m s.by_id })
      else (err subject_already_bound, s)
]

abbrev pub found_member : Option Member → Result Member
found_member none = err member_not_found
found_member (some m) = ok m

-- GetByID
unfoldable pub get_by_id : MemberId → MemberStore → Result Member
get_by_id id s = found_member (lookup id s.by_id)

-- GetBySubject: through the index, then the map
unfoldable pub get_by_subject : SubjectId → MemberStore → Result Member
get_by_subject subject s = elim (lookup subject s.id_by_sub) [
  | none ↦ err member_not_found
  | some id ↦ found_member (lookup id s.by_id)
]

select : (Member → Bool) → List Member → List Member
select p [] = []
select p (m ∷ ms) = let rest = select p ms in if p m then m ∷ rest else rest

-- out[:limit]
take : ℕ → List Member → List Member
take zero ms = []
take (suc n) [] = []
take (suc n) (m ∷ ms) = m ∷ take n ms

-- `limit > 0 && len(out) > limit`
up_to : ℤ → List Member → List Member
up_to (negsuc _) ms = ms
up_to (pos n) ms =
    if ltb_ℤ (pos 0) (pos n) && ltb_ℤ (pos n) (pos (length ms)) then take n ms else ms

module _ (u : Unicode) where
  -- the comparison of sortMembersByDisplayName
  unfoldable pub member_less : Member → Member → Bool
  member_less a b =
      let di = to_lower u a.display_name in
      let dj = to_lower u b.display_name in if di == dj then str_lt a.id b.id else str_lt di dj

  -- List
  unfoldable pub list_members : Bool → MemberStore → Result (List Member)
  unfolding select
  list_members include_inactive s = ok (
      sort_slice member_less
        (select (λ m. if include_inactive then true else m.is_active) (values s.by_id)))

  -- tokenize
  unfoldable pub tokenize : String → List String
  tokenize s = let low = to_lower u (trim_space s) in if low == "" then [] else fields low

  all_contained : String → List String → Bool
  all_contained hay [] = true
  all_contained hay (t ∷ ts) = if contains hay t then all_contained hay ts else false

  -- matchesAllTokens
  unfoldable pub matches_all_tokens : String → List String → Bool
  unfolding all_contained
  matches_all_tokens display_name tokens = all_contained (to_lower u display_name) tokens

  search_tokens : List String → ℤ → MemberStore → List Member
  search_tokens [] limit s = []
  search_tokens (t ∷ ts) limit s = up_to limit (
      sort_slice member_less (
        select (λ m. if m.is_active then matches_all_tokens m.display_name (t ∷ ts) else false)
          (values s.by_id)))

  -- SearchActiveByDisplayName
  unfoldable pub search_active_by_display_name : String → ℤ → MemberStore → Result (List Member)
  unfolding search_tokens select up_to take
  search_active_by_display_name query limit s = ok (search_tokens (tokenize query) limit s)

abbrev pub memory_members : Unicode → MemberRepository
memory_members u = record {
  Store = MemberStore;
  create = create;
  update = update;
  get_by_id = get_by_id;
  get_by_subject = get_by_subject;
  list_members = list_members u;
  search_active_by_display_name = search_active_by_display_name u;
}
