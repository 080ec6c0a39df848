-- ===== src/Members/Accounts/Emails.antt =====
-- The e-mail addresses of the members after CreateMyMember and UpdateMyMemberProfile.
use eastbay_overland_rally_p.Prelude.{◌≡◌, ◌⊎◌, inl, inr, String, arith, string_eq}
use eastbay_overland_rally_p.Domain.{Member, SubjectId}
use eastbay_overland_rally_p.Ports.{ok, Result-cases}
use eastbay_overland_rally_p.Ports.Laws.{MemberLaws}
use eastbay_overland_rally_p.Service.{Backend, World}
use eastbay_overland_rally_p.Trips.Types.{Optional, unspecified, null, value}
use eastbay_overland_rally_p.Members.Types.{
  Settings, CreateMyMemberInput, UpdateMyMemberProfileInput,
}
use eastbay_overland_rally_p.Members.Profile.{
  valid_address, update_name, update_group_alias, update_vehicle,
}
use eastbay_overland_rally_p.Members.Directory.{ensure_email_unique, update_email}
use eastbay_overland_rally_p.Members.Uniqueness.{
  HasUniqueEmails, IsFree, ensure_email_unique-IsUnused, written-HasUniqueEmails,
}
use eastbay_overland_rally_p.Members.Accounts.{create_my_member, update_my_member_profile}
use eastbay_overland_rally_p.Members.Accounts.Effects.{
  created, Updated, revised, create_my_member-Created, update_my_member_profile-Updated,
}

-- the fields of a member that an update of the profile leaves alone, and its address
abbrev pub SameAccount : Member → Member → Type 0
SameAccount a b =
    (b.id ≡ a.id)
    × (b.subject ≡ a.subject)
    × (b.is_active ≡ a.is_active)
    × (b.created_at ≡ a.created_at)

pub update_name-SameAccount :
    (o : Optional String) (a b : Member)
    → update_name o a ≡ ok b
    → SameAccount a b × (b.email ≡ a.email)
unfolding update_name
update_name-SameAccount o a b h = ground arith

pub update_group_alias-SameAccount :
    (s : Settings) (o : Optional String) (a b : Member)
    → update_group_alias s o a ≡ ok b
    → SameAccount a b × (b.email ≡ a.email)
unfolding update_group_alias
update_group_alias-SameAccount s o a b h = ground arith

pub update_vehicle-SameAccount :
    (o : Optional _) (a : Member)
    → SameAccount a (update_vehicle o a) × ((update_vehicle o a).email ≡ a.email)
unfolding update_vehicle
update_vehicle-SameAccount o a = ground arith

module _ (B : Backend) {IsValid : B.members.Store → Type 0} (M : MemberLaws B.members IsValid)
    (s : Settings) (subject : SubjectId) (w : World B) where
  pub update_email-SameAccount :
      (o : Optional String) (a b : Member)
      → update_email B s o a w ≡ ok b
      → SameAccount a b × ((b.email ≡ a.email) ⊎ (ensure_email_unique B s b.email a.id w ≡ ok tt))
  unfolding update_email
  update_email-SameAccount unspecified a b h = ground arith
  update_email-SameAccount null a b h = cc
  update_email-SameAccount (value v) a b h =
      elim (Result-cases (valid_address s "invalid email" "email" v)) [
        | inr (x, e) ↦ absurd (ground arith)
        | inl (email, e) ↦ ground arith
      ]

  -- CreateMyMember, whatever it returns, keeps the addresses of the members unique, where the store of
  -- members is valid.
  pub create_my_member-HasUniqueEmails :
      (input : CreateMyMemberInput)
      → IsValid w.members
      → HasUniqueEmails B w.members
      → HasUniqueEmails B (create_my_member B s subject input w).1.members
  create_my_member-HasUniqueEmails input valid unique =
      elim (create_my_member-Created B M s subject w input) [
        | inl (x, failed, same) ↦ rw same unique
        | inr (c, done) ↦
            let v = created B M s subject w input c.name c.email in
            rw c.stored (
              written-HasUniqueEmails B M s w v _ valid (λ i. M.get-create v w.members i c.saved)
                (λ i m got.
                  ground (arith, ensure_email_unique-IsUnused B M s w c.email "" c.free i m got))
                unique)
      ]

  -- the member that an update writes has the identifier of the stored one, and its old address or one
  -- that is free
  revised-IsFree :
      (input : UpdateMyMemberProfileInput) (w' : World B) (c : Updated B M s subject w input w')
      → IsValid w.members
      → HasUniqueEmails B w.members
      → IsFree B M s w
          (revised B M s subject w input c.aliased).email
          (revised B M s subject w input c.aliased).id
  revised-IsFree input w' c valid unique i m got =
      let n = update_name-SameAccount input.display_name c.old c.named c.name in
      let e = update_email-SameAccount input.email c.named c.mailed c.mail in
      let g = update_group_alias-SameAccount s input.group_alias_email c.mailed c.aliased c.group in
      let v = update_vehicle-SameAccount input.vehicle_profile c.aliased in
      let there = M.subject-id w.members subject c.old valid c.found in
      elim e.1 [
        | inl kept ↦ ground (
          arith,
          n,
          e.0,
          g,
          v,
          kept,
          M.keyed w.members i m valid got,
          unique i c.old.id m c.old got there,
        )
        | inr fresh ↦ ground (
          arith,
          n,
          e.0,
          g,
          v,
          ensure_email_unique-IsUnused B M s w c.mailed.email c.named.id fresh i m got,
        )
      ]

  -- UpdateMyMemberProfile, whatever it returns, keeps the addresses of the members unique, where the
  -- store of members is valid.
  pub update_my_member_profile-HasUniqueEmails :
      (input : UpdateMyMemberProfileInput)
      → IsValid w.members
      → HasUniqueEmails B w.members
      → HasUniqueEmails B (update_my_member_profile B s subject input w).1.members
  update_my_member_profile-HasUniqueEmails input valid unique =
      elim (update_my_member_profile-Updated B M s subject w input) [
        | inl (x, failed, same) ↦ rw same unique
        | inr (c, done) ↦
            let v = revised B M s subject w input c.aliased in
            rw c.stored (
              written-HasUniqueEmails B M s w v _ valid (λ i. M.get-update v w.members i c.saved)
                (revised-IsFree input _ c valid unique) unique)
      ]
