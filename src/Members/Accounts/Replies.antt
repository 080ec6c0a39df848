-- ===== src/Members/Accounts/Replies.antt =====
-- GetMyMemberProfile after CreateMyMember and UpdateMyMemberProfile.
use eastbay_overland_rally_p.Prelude.{◌≡◌, inl, inr, arith, string_eq}
use eastbay_overland_rally_p.Domain.{Member, SubjectId}
use eastbay_overland_rally_p.Ports.{ok}
use eastbay_overland_rally_p.Ports.Laws.{MemberLaws}
use eastbay_overland_rally_p.Service.{Backend, World}
use eastbay_overland_rally_p.Members.Types.{
  Settings, CreateMyMemberInput, UpdateMyMemberProfileInput,
}
use eastbay_overland_rally_p.Members.Directory.{get_my_member_profile}
use eastbay_overland_rally_p.Members.Accounts.{create_my_member, update_my_member_profile}
use eastbay_overland_rally_p.Members.Accounts.Effects.{
  created, revised, Updated, create_my_member-Created, update_my_member_profile-Updated,
}
use eastbay_overland_rally_p.Members.Accounts.Emails.{
  SameAccount, update_name-SameAccount, update_group_alias-SameAccount, update_vehicle-SameAccount,
  update_email-SameAccount,
}

module _ (B : Backend) {IsValid : B.members.Store → Type 0} (M : MemberLaws B.members IsValid)
    (s : Settings) (subject : SubjectId) (w : World B) where
  -- After a successful CreateMyMember, GetMyMemberProfile returns the member that it returned.
  pub get_my_member_profile-create_my_member :
      (input : CreateMyMemberInput) (m : Member)
      → (create_my_member B s subject input w).0 ≡ ok m
      → get_my_member_profile B s subject (create_my_member B s subject input w).1 ≡ ok m
  unfolding get_my_member_profile
  get_my_member_profile-create_my_member input m h =
      elim (create_my_member-Created B M s subject w input) [
        | inl (x, failed, same) ↦ absurd (ground arith)
        | inr (c, done) ↦
            let v = created B M s subject w input c.name c.email in
            ground (arith, M.subject-create v w.members c.saved, c.stored)
      ]

  revised-SameAccount :
      (input : UpdateMyMemberProfileInput) (w' : World B) (c : Updated B M s subject w input w')
      → SameAccount c.old (revised B M s subject w input c.aliased)
  revised-SameAccount input w' c = ground (
    arith,
    update_name-SameAccount input.display_name c.old c.named c.name,
    (update_email-SameAccount B M s subject w input.email c.named c.mailed c.mail).0,
    update_group_alias-SameAccount s input.group_alias_email c.mailed c.aliased c.group,
    update_vehicle-SameAccount input.vehicle_profile c.aliased,
  )

  -- After a successful UpdateMyMemberProfile, GetMyMemberProfile returns the member that it returned,
  -- which has the identifier, the subject, the activity and the time of creation of the member that was
  -- stored for the subject. The store of members is to be valid.
  pub get_my_member_profile-update_my_member_profile :
      (input : UpdateMyMemberProfileInput) (m : Member)
      → IsValid w.members
      → (update_my_member_profile B s subject input w).0 ≡ ok m
      → (get_my_member_profile B s subject (update_my_member_profile B s subject input w).1 ≡ ok m)
        × ((old : Member) × (B.members.get_by_subject subject w.members ≡ ok old)
            × SameAccount old m)
  unfolding get_my_member_profile
  get_my_member_profile-update_my_member_profile input m valid h =
      elim (update_my_member_profile-Updated B M s subject w input) [
        | inl (x, failed, same) ↦ absurd (ground arith)
        | inr (c, done) ↦
            let v = revised B M s subject w input c.aliased in
            let same = revised-SameAccount input _ c in
            let e : v ≡ m = ground arith in
            rw (← e) (
              ground (
                arith,
                M.subject-update w.members subject c.old v valid c.found same.0 c.saved,
                c.stored,
              ),
              (c.old, c.found, same),
            )
      ]
