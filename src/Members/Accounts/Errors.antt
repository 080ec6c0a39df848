-- ===== src/Members/Accounts/Errors.antt =====
-- The errors of CreateMyMember and UpdateMyMemberProfile.
use eastbay_overland_rally_p.Prelude.{ℕ, true, List, [], ◌∷◌, ◌≡◌, refl, string_eq}
use eastbay_overland_rally_p.Domain.{Member, SubjectId}
use eastbay_overland_rally_p.Ports.{
  Result, ok, err, app, backend, trip_not_found, trip_already_exists, member_not_found,
  subject_already_bound, member_already_exists, rsvp_not_found,
}
use eastbay_overland_rally_p.Ports.Errors.{statuses, declares, Within, foreign}
use eastbay_overland_rally_p.Service.{Backend, pure, lift, reads}
use eastbay_overland_rally_p.Service.Errors.{Throws, always, returns, bind-Throws, ForeignErrors}
use eastbay_overland_rally_p.Members.Types.{
  Settings, CreateMyMemberInput, UpdateMyMemberProfileInput,
}
use eastbay_overland_rally_p.Members.Profile.{
  valid_name, valid_address, update_name, update_group_alias, update_vehicle,
}
use eastbay_overland_rally_p.Members.Directory.{
  or_not_provisioned, ensure_email_unique, update_email,
}
use eastbay_overland_rally_p.Members.Accounts.{
  unbound, or_already_exists, new_member, clk_now, mint_member_id, insert_member, store_member,
  create_my_member, update_my_member_profile,
}
use eastbay_overland_rally_p.Members.Directory.Errors.{
  or_not_provisioned-Within, valid_name-Within, valid_address-Within, update_name-Within,
  update_group_alias-Within, ensure_email_unique-Within, update_email-Within,
}

module _ (cs : List ℕ) (conflict : declares cs 409 ≡ true) (invalid : declares cs 422 ≡ true) where
  unbound-Within : (r : Result Member) → Within [] r → Within cs (unbound r)
  unbound-Within (ok m) h = conflict
  unbound-Within (err (app e)) h = absurd cc
  unbound-Within (err (backend text)) h = tt
  unbound-Within (err trip_not_found) h = tt
  unbound-Within (err trip_already_exists) h = tt
  unbound-Within (err member_not_found) h = tt
  unbound-Within (err subject_already_bound) h = tt
  unbound-Within (err member_already_exists) h = tt
  unbound-Within (err rsvp_not_found) h = tt

  or_already_exists-Within : (r : Result Unit) → Within [] r → Within cs (or_already_exists r)
  or_already_exists-Within (ok a) h = tt
  or_already_exists-Within (err (app e)) h = absurd cc
  or_already_exists-Within (err (backend text)) h = tt
  or_already_exists-Within (err trip_not_found) h = tt
  or_already_exists-Within (err trip_already_exists) h = tt
  or_already_exists-Within (err member_not_found) h = tt
  or_already_exists-Within (err subject_already_bound) h = conflict
  or_already_exists-Within (err member_already_exists) h = tt
  or_already_exists-Within (err rsvp_not_found) h = tt

module _ {B : Backend} (F : ForeignErrors B) (s : Settings) where
  pub create_my_member-Throws :
      (sub : SubjectId) (input : CreateMyMemberInput)
      → Throws (409 ∷ 422 ∷ []) (create_my_member B s sub input)
  unfolding create_my_member
  create_my_member-Throws sub input =
      let cs : List ℕ = 409 ∷ 422 ∷ [] in
      bind-Throws cs (reads {B = B} (λ w. unbound (B.members.get_by_subject sub w.members))) _
        (always cs λ w.
          unbound-Within cs refl refl (B.members.get_by_subject sub w.members)
            (F.member_by_subject sub w.members))
        λ u.
          bind-Throws cs (lift {B = B} (valid_name input.display_name)) _
            (always cs λ w. valid_name-Within cs refl refl input.display_name)
            λ name.
              bind-Throws cs (lift {B = B} (valid_address s "invalid email" "email" input.email)) _
                (always cs
                  λ w. valid_address-Within cs refl refl s "invalid email" "email" input.email)
                λ email.
                  bind-Throws cs (reads {B = B} (ensure_email_unique B s email "")) _
                    (always cs (ensure_email_unique-Within cs refl refl F s email ""))
                    λ free. bind-Throws cs (clk_now B s) _ (always cs λ w. tt) λ now.
                      bind-Throws cs (mint_member_id B s) _ (always cs λ w. tt) λ id.
                        let m = new_member id sub name email input now in
                        bind-Throws cs (insert_member B s m) (λ v. pure m)
                          (always cs λ w.
                            or_already_exists-Within cs refl refl (B.members.create m w.members).0
                              (F.member_created m w.members))
                          (λ v. returns cs m)

  pub update_my_member_profile-Throws :
      (sub : SubjectId) (input : UpdateMyMemberProfileInput)
      → Throws statuses (update_my_member_profile B s sub input)
  unfolding update_my_member_profile
  update_my_member_profile-Throws sub input =
      bind-Throws statuses
        (reads {B = B} (λ w. or_not_provisioned (B.members.get_by_subject sub w.members))) _
        (always statuses λ w.
          or_not_provisioned-Within statuses refl (B.members.get_by_subject sub w.members)
            (F.member_by_subject sub w.members))
        λ m.
          bind-Throws statuses (lift {B = B} (update_name input.display_name m)) _
            (always statuses λ w. update_name-Within statuses refl refl input.display_name m)
            λ named.
              bind-Throws statuses (reads {B = B} (update_email B s input.email named)) _
                (always statuses (update_email-Within statuses refl refl F s input.email named))
                λ mailed.
                  bind-Throws statuses
                    (lift {B = B} (update_group_alias s input.group_alias_email mailed)) _
                    (always statuses λ w.
                      update_group_alias-Within statuses refl refl s input.group_alias_email mailed)
                    λ aliased. bind-Throws statuses (clk_now B s) _ (always statuses λ w. tt) λ now.
                      let m' = record (update_vehicle input.vehicle_profile aliased) {
                        updated_at = now;
                      } in
                      bind-Throws statuses (store_member B s m') (λ v. pure m')
                        (always statuses λ w. foreign statuses _ (F.member_updated m' w.members))
                        (λ v. returns statuses m')
