-- ===== src/Members/Accounts/Effects.antt =====
-- What CreateMyMember and UpdateMyMemberProfile do to the store of members.
use eastbay_overland_rally_p.Prelude.{◌≡◌, refl, ◌⊎◌, inl, inr, String, arith}
use eastbay_overland_rally_p.Domain.{Member, SubjectId}
use eastbay_overland_rally_p.Ports.{Failure, Result, ok, err, Result-cases}
use eastbay_overland_rally_p.Ports.Laws.{MemberLaws}
use eastbay_overland_rally_p.Service.{Backend, World, Exec, pure, lift, reads, ◌>>=◌, ◌>>◌}
use eastbay_overland_rally_p.Members.Types.{
  Settings, CreateMyMemberInput, UpdateMyMemberProfileInput,
}
use eastbay_overland_rally_p.Members.Profile.{
  valid_name, valid_address, update_name, update_group_alias, update_vehicle,
}
use eastbay_overland_rally_p.Members.Directory.{
  ensure_email_unique, update_email, or_not_provisioned,
}
use eastbay_overland_rally_p.Members.Accounts.{
  conflict, unbound, new_member, clk_now, mint_member_id, insert_member, store_member,
  create_my_member, update_my_member_profile,
}

module _ (B : Backend) {IsValid : B.members.Store → Type 0} (M : MemberLaws B.members IsValid)
    (s : Settings) (subject : SubjectId) (w : World B) where
  -- the call fails and changes no member
  abbrev pub Fails : Result Member × World B → Type 0
  Fails r = (e : Failure) × (r.0 ≡ err e) × (r.1.members ≡ w.members)

  -- the member that a create writes
  abbrev pub created : CreateMyMemberInput → String → String → Member
  created input name email =
      new_member (B.new_member_id w.minted) subject name email input (s.clock w.readings)

  -- what a create that succeeds has found and written
  pub record Created (input : CreateMyMemberInput) (w' : World B) : Type 0 where
    pub name : String
    pub email : String
    pub named : valid_name input.display_name ≡ ok name
    pub mailed : valid_address s "invalid email" "email" input.email ≡ ok email
    pub free : ensure_email_unique B s email "" w ≡ ok tt
    pub saved : (B.members.create (created input name email) w.members).0 ≡ ok tt
    pub stored : w'.members ≡ (B.members.create (created input name email) w.members).1

  -- the call creates that member and returns it
  abbrev pub Creates : CreateMyMemberInput → Result Member × World B → Type 0
  Creates input r = (c : Created input r.1) × (r.0 ≡ ok (created input c.name c.email))

  abbrev mail_part : CreateMyMemberInput → String → Exec B Member
  mail_part input name = do
    email ← lift (valid_address s "invalid email" "email" input.email)
    reads (ensure_email_unique B s email "")
    now ← clk_now B s
    id ← mint_member_id B s
    let m = new_member id subject name email input now
    insert_member B s m
    pure m

  saved-Created :
      (input : CreateMyMemberInput) (name email : String)
      → valid_name input.display_name ≡ ok name
      → valid_address s "invalid email" "email" input.email ≡ ok email
      → ensure_email_unique B s email "" w ≡ ok tt
      → Fails (mail_part input name w) ⊎ Creates input (mail_part input name w)
  saved-Created input name email named mailed free =
      let v = created input name email in
      elim (Result-cases (B.members.create v w.members).0) [
        | inl (u, saved) ↦ inr (
          record {
            name = name;
            email = email;
            named = named;
            mailed = mailed;
            free = free;
            saved = saved;
            stored = ground arith;
          },
          ground arith,
        )
        | inr (x, failed) ↦
            inl (conflict x, ground arith, ground (arith, M.create_error v w.members x failed))
      ]

  mailed-Created :
      (input : CreateMyMemberInput) (name : String)
      → valid_name input.display_name ≡ ok name
      → Fails (mail_part input name w) ⊎ Creates input (mail_part input name w)
  mailed-Created input name named =
      elim (Result-cases (valid_address s "invalid email" "email" input.email)) [
        | inr (x, unmailed) ↦ rw unmailed (inl (x, refl, refl))
        | inl (email, mailed) ↦ elim (Result-cases (ensure_email_unique B s email "" w)) [
          | inr (x, used) ↦ rw mailed (rw used (inl (x, refl, refl)))
          | inl (u, free) ↦ saved-Created input name email named mailed free
        ]
      ]

  pub create_my_member-Created :
      (input : CreateMyMemberInput)
      → Fails (create_my_member B s subject input w)
        ⊎ Creates input (create_my_member B s subject input w)
  unfolding create_my_member
  create_my_member-Created input =
      elim (Result-cases (unbound (B.members.get_by_subject subject w.members))) [
        | inr (x, bound) ↦ rw bound (inl (x, refl, refl))
        | inl (u, new) ↦ rw new (elim (Result-cases (valid_name input.display_name)) [
          | inr (x, unnamed) ↦ rw unnamed (inl (x, refl, refl))
          | inl (name, named) ↦ rw named (mailed-Created input name named)
        ])
      ]

  -- the member that an update writes, from the one that is stored
  abbrev pub revised : UpdateMyMemberProfileInput → Member → Member
  revised input aliased =
      let driven = update_vehicle input.vehicle_profile aliased in
      record driven { updated_at = s.clock w.readings }

  -- what an update that succeeds has found and written
  pub record Updated (input : UpdateMyMemberProfileInput) (w' : World B) : Type 0 where
    pub old : Member
    pub named : Member
    pub mailed : Member
    pub aliased : Member
    pub found : B.members.get_by_subject subject w.members ≡ ok old
    pub name : update_name input.display_name old ≡ ok named
    pub mail : update_email B s input.email named w ≡ ok mailed
    pub group : update_group_alias s input.group_alias_email mailed ≡ ok aliased
    pub saved : (B.members.update (revised input aliased) w.members).0 ≡ ok tt
    pub stored : w'.members ≡ (B.members.update (revised input aliased) w.members).1

  -- the call stores the revised member and returns it
  abbrev pub Updates : UpdateMyMemberProfileInput → Result Member × World B → Type 0
  Updates input r = (c : Updated input r.1) × (r.0 ≡ ok (revised input c.aliased))

  abbrev update_part : UpdateMyMemberProfileInput → Member → Exec B Member
  update_part input m = do
    named ← lift (update_name input.display_name m)
    mailed ← reads (update_email B s input.email named)
    aliased ← lift (update_group_alias s input.group_alias_email mailed)
    let driven = update_vehicle input.vehicle_profile aliased
    now ← clk_now B s
    let m' = record driven { updated_at = now }
    store_member B s m'
    pure m'

  found-member : (m : Member) (r : Result Member) → or_not_provisioned r ≡ ok m → r ≡ ok m
  found-member m r h = ground arith

  stored-Updated :
      (input : UpdateMyMemberProfileInput) (old named mailed aliased : Member)
      → B.members.get_by_subject subject w.members ≡ ok old
      → update_name input.display_name old ≡ ok named
      → update_email B s input.email named w ≡ ok mailed
      → update_group_alias s input.group_alias_email mailed ≡ ok aliased
      → Fails (update_part input old w) ⊎ Updates input (update_part input old w)
  stored-Updated input old named mailed aliased found name mail group =
      let v = revised input aliased in
      elim (Result-cases (B.members.update v w.members).0) [
        | inl (u, saved) ↦ rw name (
            rw mail (
              rw group (
                inr (
                  record {
                    old = old;
                    named = named;
                    mailed = mailed;
                    aliased = aliased;
                    found = found;
                    name = name;
                    mail = mail;
                    group = group;
                    saved = saved;
                    stored = ground arith;
                  },
                  ground arith,
                ))))
        | inr (x, failed) ↦ rw name (
            rw mail (
              rw group
                (inl (x, ground arith, ground (arith, M.update_error v w.members x failed)))))
      ]

  found-Updated :
      (input : UpdateMyMemberProfileInput) (old : Member)
      → B.members.get_by_subject subject w.members ≡ ok old
      → Fails (update_part input old w) ⊎ Updates input (update_part input old w)
  found-Updated input old found = elim (Result-cases (update_name input.display_name old)) [
    | inr (x, e) ↦ rw e (inl (x, refl, refl))
    | inl (named, name) ↦ elim (Result-cases (update_email B s input.email named w)) [
      | inr (x, e) ↦ rw name (rw e (inl (x, refl, refl)))
      | inl (mailed, mail) ↦
          elim (Result-cases (update_group_alias s input.group_alias_email mailed)) [
            | inr (x, e) ↦ rw name (rw mail (rw e (inl (x, refl, refl))))
            | inl (aliased, group) ↦
                stored-Updated input old named mailed aliased found name mail group
          ]
    ]
  ]

  pub update_my_member_profile-Updated :
      (input : UpdateMyMemberProfileInput)
      → Fails (update_my_member_profile B s subject input w)
        ⊎ Updates input (update_my_member_profile B s subject input w)
  unfolding update_my_member_profile
  update_my_member_profile-Updated input =
      elim (Result-cases (or_not_provisioned (B.members.get_by_subject subject w.members))) [
        | inr (x, e) ↦ rw e (inl (x, refl, refl))
        | inl (old, e) ↦ rw e (found-Updated input old (found-member old _ e))
      ]
