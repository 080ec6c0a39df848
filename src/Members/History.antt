-- ===== src/Members/History.antt =====
-- Histories: any sequence of calls of the member service that change state.
use eastbay_overland_rally_p.Prelude.{inl, inr, List, [], ◌∷◌}
use eastbay_overland_rally_p.Domain.{SubjectId}
use eastbay_overland_rally_p.Ports.Laws.{MemberLaws}
use eastbay_overland_rally_p.Service.{Backend, World}
use eastbay_overland_rally_p.Members.Types.{
  Settings, CreateMyMemberInput, UpdateMyMemberProfileInput,
}
use eastbay_overland_rally_p.Members.Uniqueness.{HasUniqueEmails}
use eastbay_overland_rally_p.Members.Accounts.{create_my_member, update_my_member_profile}
use eastbay_overland_rally_p.Members.Accounts.Effects.{
  created, revised, create_my_member-Created, update_my_member_profile-Updated,
}
use eastbay_overland_rally_p.Members.Accounts.Emails.{
  create_my_member-HasUniqueEmails, update_my_member_profile-HasUniqueEmails,
}

pub data AccountCall : Type 0 where
  joins : CreateMyMemberInput → AccountCall
  edits : UpdateMyMemberProfileInput → AccountCall

module _ (B : Backend) (s : Settings) where
  -- the world after a call, whatever it returns
  unfoldable pub account_call : World B → SubjectId × AccountCall → World B
  account_call w (subject, joins input) = (create_my_member B s subject input w).1
  account_call w (subject, edits input) = (update_my_member_profile B s subject input w).1

  pub account_calls : World B → List (SubjectId × AccountCall) → World B
  account_calls w [] = w
  account_calls w (c ∷ cs) = account_calls (account_call w c) cs

module _ (B : Backend) {IsValid : B.members.Store → Type 0} (M : MemberLaws B.members IsValid)
    (s : Settings) where
  -- the members are stored as the repository promises, and no two have one address
  abbrev pub IsOrderly : World B → Type 0
  IsOrderly w = IsValid w.members × HasUniqueEmails B w.members

  account_call-IsOrderly :
      (w : World B) (c : SubjectId × AccountCall) → IsOrderly w → IsOrderly (account_call B s w c)
  unfolding account_call
  account_call-IsOrderly w (subject, joins input) (valid, unique) = (
    elim (create_my_member-Created B M s subject w input) [
      | inl (x, failed, same) ↦ rw same valid
      | inr (c, done) ↦
          rw c.stored
            (M.create-IsValid (created B M s subject w input c.name c.email) w.members valid)
    ],
    create_my_member-HasUniqueEmails B M s subject w input valid unique,
  )
  account_call-IsOrderly w (subject, edits input) (valid, unique) = (
    elim (update_my_member_profile-Updated B M s subject w input) [
      | inl (x, failed, same) ↦ rw same valid
      | inr (c, done) ↦
          rw c.stored (M.update-IsValid (revised B M s subject w input c.aliased) w.members valid)
    ],
    update_my_member_profile-HasUniqueEmails B M s subject w input valid unique,
  )

  -- If the members are stored as the repository promises and no two of them have the same e-mail
  -- address but for the case of its letters, then this is so after any history of calls of
  -- CreateMyMember and UpdateMyMemberProfile, successful or not.
  pub account_calls-IsOrderly :
      (w : World B) (cs : List (SubjectId × AccountCall))
      → IsOrderly w
      → IsOrderly (account_calls B s w cs)
  unfolding account_calls
  account_calls-IsOrderly w [] h = h
  account_calls-IsOrderly w (c ∷ cs) h =
      account_calls-IsOrderly (account_call B s w c) cs (account_call-IsOrderly w c h)
