-- ===== src/Members/Accounts.antt =====
-- CreateMyMember and UpdateMyMemberProfile of service.go.
pub mod Errors
pub mod Effects
pub mod Emails
pub mod Replies
mod Examples
use eastbay_overland_rally_p.Prelude.{String, true, false, Option, none, ◌+◌}
use eastbay_overland_rally_p.Domain.{Member, MemberId, SubjectId, Time}
use eastbay_overland_rally_p.Ports.{
  Result, ok, err, Failure, member_not_found, subject_already_bound,
}
use eastbay_overland_rally_p.Service.{Backend, World, Exec, pure, lift, reads, ◌>>=◌, ◌>>◌}
use eastbay_overland_rally_p.Members.Types.{
  Settings, CreateMyMemberInput, UpdateMyMemberProfileInput, already_exists,
}
use eastbay_overland_rally_p.Members.Profile.{
  valid_name, valid_address, create_vehicle_profile, update_name, update_group_alias,
  update_vehicle,
}
use eastbay_overland_rally_p.Members.Directory.{
  ensure_email_unique, update_email, or_not_provisioned,
}

-- "Ensure no existing binding."
abbrev pub unbound : Result Member → Result Unit
unbound (ok m) = err already_exists
unbound (err member_not_found) = ok tt
unbound (err e) = err e

abbrev pub conflict : Failure → Failure
conflict subject_already_bound = already_exists
conflict e = e

abbrev pub or_already_exists : Result Unit → Result Unit
or_already_exists (err e) = err (conflict e)
or_already_exists (ok u) = ok u

-- the member that CreateMyMember builds
abbrev pub new_member : MemberId → SubjectId → String → String → CreateMyMemberInput → Time → Member
new_member id subject name email input now = record {
  id = id;
  subject = subject;
  display_name = name;
  email = email;
  group_alias_email = input.group_alias_email;
  vehicle_profile = create_vehicle_profile input.vehicle_profile;
  is_active = true;
  created_at = now;
  updated_at = now;
}

module _ (B : Backend) (s : Settings) where
  -- s.clk.Now()
  abbrev pub clk_now : Exec B Time
  clk_now w = (ok (s.clock w.readings), record w { readings = w.readings + 1 })

  abbrev pub mint_member_id : Exec B MemberId
  mint_member_id w = (ok (B.new_member_id w.minted), record w { minted = w.minted + 1 })

  abbrev pub insert_member : Member → Exec B Unit
  insert_member m w =
      let (r, t) = B.members.create m w.members in (or_already_exists r, record w { members = t })

  abbrev pub store_member : Member → Exec B Unit
  store_member m w = let (r, t) = B.members.update m w.members in (r, record w { members = t })

  unfoldable pub create_my_member : SubjectId → CreateMyMemberInput → Exec B Member
  create_my_member subject input = do
    reads (λ w. unbound (B.members.get_by_subject subject w.members))
    name ← lift (valid_name input.display_name)
    email ← lift (valid_address s "invalid email" "email" input.email)
    reads (ensure_email_unique B s email "")
    now ← clk_now
    id ← mint_member_id
    let m = new_member id subject name email input now
    insert_member m
    pure m

  unfoldable pub update_my_member_profile : SubjectId → UpdateMyMemberProfileInput → Exec B Member
  update_my_member_profile subject input = do
    m ← reads (λ w. or_not_provisioned (B.members.get_by_subject subject w.members))
    named ← lift (update_name input.display_name m)
    mailed ← reads (update_email B s input.email named)
    aliased ← lift (update_group_alias s input.group_alias_email mailed)
    let driven = update_vehicle input.vehicle_profile aliased
    now ← clk_now
    let m' = record driven { updated_at = now }
    store_member m'
    pure m'
