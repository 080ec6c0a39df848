-- ===== src/Members/Directory/Errors.antt =====
-- The errors of the tests of a profile, and of the methods of the service of members that read.
use eastbay_overland_rally_p.Prelude.{
  ℕ, String, Bool, true, not, ltb, ◌&&◌, List, [], ◌∷◌, Option, none, some, ◌≡◌, refl, inl, inr,
  Bool-cases, ◌==◌, string_eq,
}
use eastbay_overland_rally_p.Text.{
  Unicode, normalize_human_name, trim_space, rune_count, equal_fold,
}
use eastbay_overland_rally_p.Domain.{Member, MemberId, SubjectId}
use eastbay_overland_rally_p.Ports.{
  Result, ok, err, require, app, backend, trip_not_found, trip_already_exists, member_not_found,
  subject_already_bound, member_already_exists, rsvp_not_found,
}
use eastbay_overland_rally_p.Ports.Errors.{declares, Within, foreign, require-Within, bind-Within}
use eastbay_overland_rally_p.Service.{Backend, World}
use eastbay_overland_rally_p.Service.Errors.{ForeignErrors}
use eastbay_overland_rally_p.Trips.Types.{Optional, unspecified, null, value, validation_error}
use eastbay_overland_rally_p.Members.Types.{Settings}
use eastbay_overland_rally_p.Members.Profile.{
  no_problem, valid_name, validate_email, valid_address, update_name, update_group_alias,
}
use eastbay_overland_rally_p.Members.Directory.{
  no_email, or_not_provisioned, list_all, search_members, get_my_member_profile,
  ensure_email_unique, update_email,
}

module _ (cs : List ℕ) (missing : declares cs 404 ≡ true) where
  pub or_not_provisioned-Within :
      (r : Result Member) → Within [] r → Within cs (or_not_provisioned r)
  or_not_provisioned-Within (ok a) h = tt
  or_not_provisioned-Within (err (app e)) h = absurd cc
  or_not_provisioned-Within (err (backend text)) h = tt
  or_not_provisioned-Within (err trip_not_found) h = tt
  or_not_provisioned-Within (err trip_already_exists) h = tt
  or_not_provisioned-Within (err member_not_found) h = missing
  or_not_provisioned-Within (err subject_already_bound) h = tt
  or_not_provisioned-Within (err member_already_exists) h = tt
  or_not_provisioned-Within (err rsvp_not_found) h = tt

module _ (cs : List ℕ) (conflict : declares cs 409 ≡ true) (invalid : declares cs 422 ≡ true) where
  pub valid_name-Within : (text : String) → Within cs (valid_name text)
  valid_name-Within text =
      let there = not (normalize_human_name text == "") in
      let e = validation_error "invalid displayName" "displayName" "must be non-empty" in
      bind-Within cs (require there e) _ (require-Within cs there e invalid) (λ u. tt)

  no_problem-Within :
      (problem : Option String) (message field email : String)
      → Within cs (no_problem problem message field email)
  no_problem-Within none message field email = tt
  no_problem-Within (some problem) message field email = invalid

  pub valid_address-Within :
      (s : Settings) (message field text : String) → Within cs (valid_address s message field text)
  valid_address-Within s message field text =
      no_problem-Within (validate_email s (trim_space text)) message field (trim_space text)

  no_email-Within :
      (u : Unicode) (email : String) (exclude : MemberId) (ms : List Member)
      → Within cs (no_email u email exclude ms)
  unfolding no_email
  no_email-Within u email exclude [] = tt
  no_email-Within u email exclude (m ∷ ms) =
      let later = no_email-Within u email exclude ms in
      elim (Bool-cases (not (exclude == "") && m.id == exclude)) [
        | inl own ↦ rw own later
        | inr other ↦ rw other (elim (Bool-cases (equal_fold u m.email email)) [
          | inl used ↦ rw used conflict
          | inr free ↦ rw free later
        ])
      ]

  pub update_name-Within : (n : Optional String) (m : Member) → Within cs (update_name n m)
  unfolding update_name
  update_name-Within unspecified m = tt
  update_name-Within null m = invalid
  update_name-Within (value v) m =
      bind-Within cs (valid_name v) _ (valid_name-Within v) (λ name. tt)

  pub update_group_alias-Within :
      (s : Settings) (a : Optional String) (m : Member) → Within cs (update_group_alias s a m)
  unfolding update_group_alias
  update_group_alias-Within s unspecified m = tt
  update_group_alias-Within s null m = tt
  update_group_alias-Within s (value v) m =
      bind-Within cs (valid_address s "invalid groupAliasEmail" "groupAliasEmail" v) _
        (valid_address-Within s "invalid groupAliasEmail" "groupAliasEmail" v) (λ a. tt)

  module _ {B : Backend} (F : ForeignErrors B) (s : Settings) where
    pub ensure_email_unique-Within :
        (email : String) (exclude : MemberId) (w : World B)
        → Within cs (ensure_email_unique B s email exclude w)
    unfolding ensure_email_unique
    ensure_email_unique-Within email exclude w =
        bind-Within cs (B.members.list_members true w.members) _
          (foreign cs _ (F.members_listed true w.members)) (no_email-Within B.unicode email exclude)

    pub update_email-Within :
        (e : Optional String) (m : Member) (w : World B) → Within cs (update_email B s e m w)
    unfolding update_email
    update_email-Within unspecified m w = tt
    update_email-Within null m w = invalid
    update_email-Within (value v) m w =
        bind-Within cs (valid_address s "invalid email" "email" v) _
          (valid_address-Within s "invalid email" "email" v)
          λ email.
            bind-Within cs (ensure_email_unique B s email m.id w) _
              (ensure_email_unique-Within email m.id w) (λ u. tt)

module _ {B : Backend} (F : ForeignErrors B) (s : Settings) where
  pub list_all-Within :
      (sub : SubjectId) (all : Bool) (w : World B) → Within [] (list_all B s sub all w)
  unfolding list_all
  list_all-Within sub all w =
      bind-Within [] (B.members.list_members all w.members) _ (F.members_listed all w.members)
        (λ ms. tt)

  pub search_members-Within :
      (q : String) (w : World B) → Within (422 ∷ []) (search_members B s q w)
  unfolding search_members
  search_members-Within q w =
      let cs : List ℕ = 422 ∷ [] in
      let long = not (ltb (rune_count (trim_space q)) 3) in
      let e = validation_error "invalid search query" "q" "must be at least 3 characters" in
      bind-Within cs (require long e) _ (require-Within cs long e refl)
        λ u. foreign cs _ (F.members_searched (trim_space q) s.search_limit w.members)

  pub get_my_member_profile-Within :
      (sub : SubjectId) (w : World B) → Within (404 ∷ []) (get_my_member_profile B s sub w)
  unfolding get_my_member_profile
  get_my_member_profile-Within sub w =
      or_not_provisioned-Within (404 ∷ []) refl (B.members.get_by_subject sub w.members)
        (F.member_by_subject sub w.members)
