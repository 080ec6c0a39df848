-- ===== src/Members/Uniqueness.antt =====
-- The e-mail addresses of the members, letters of either case being the same, and the loop of
-- ensureEmailUnique.
use eastbay_overland_rally_p.Prelude.{
  ◌≡◌, ◌≢◌, refl, ◌⊎◌, inl, inr, true, false, String, List, [], ◌∷◌, Mem, arith, ◌==◌, string_eq,
  eq_iff, if◌then◌else◌,
}
use eastbay_overland_rally_p.Text.{Unicode, equal_fold}
use eastbay_overland_rally_p.Text.Folding.{equal_fold_comm}
use eastbay_overland_rally_p.Domain.{Member, MemberId}
use eastbay_overland_rally_p.Ports.{ok, Result-cases}
use eastbay_overland_rally_p.Ports.Laws.{MemberLaws}
use eastbay_overland_rally_p.Service.{Backend, World}
use eastbay_overland_rally_p.Members.Types.{Settings}
use eastbay_overland_rally_p.Members.Directory.{no_email, ensure_email_unique}

-- What passes the loop: every member but the excluded one has another address.
no_email-ok :
    (u : Unicode) (email : String) (exclude : MemberId) (ms : List Member) (m : Member)
    → no_email u email exclude ms ≡ ok tt
    → Mem m ms
    → ((m.id ≡ exclude) × (exclude ≢ "")) ⊎ (equal_fold u m.email email ≡ false)
unfolding no_email
no_email-ok u email exclude [] m h there = elim there [ ]
no_email-ok u email exclude (x ∷ ms) m h (inl e) =
    rw e (ground (arith, eq_iff x.id exclude, eq_iff exclude ""))
no_email-ok u email exclude (x ∷ ms) m h (inr there) =
    no_email-ok u email exclude ms m (ground arith) there

-- Two members whose addresses are the same are one.
abbrev pub HasUniqueEmails : (B : Backend) → B.members.Store → Type 0
HasUniqueEmails B t =
    (i j : MemberId) (a b : Member)
    → B.members.get_by_id i t ≡ ok a
    → B.members.get_by_id j t ≡ ok b
    → equal_fold B.unicode a.email b.email ≡ true
    → i ≡ j

module _ (B : Backend) {IsValid : B.members.Store → Type 0} (M : MemberLaws B.members IsValid)
    (s : Settings) (w : World B) where
  -- The address may be given to the excluded member.
  abbrev pub IsFree : String → MemberId → Type 0
  IsFree email exclude =
      (i : MemberId) (m : Member)
      → B.members.get_by_id i w.members ≡ ok m
      → (m.id ≡ exclude) ⊎ (equal_fold B.unicode m.email email ≡ false)

  -- What ensureEmailUnique leaves: no member is excluded by the empty identifier.
  abbrev pub IsUnused : String → MemberId → Type 0
  IsUnused email exclude =
      (i : MemberId) (m : Member)
      → B.members.get_by_id i w.members ≡ ok m
      → ((m.id ≡ exclude) × (exclude ≢ "")) ⊎ (equal_fold B.unicode m.email email ≡ false)

  pub ensure_email_unique-IsUnused :
      (email : String) (exclude : MemberId)
      → ensure_email_unique B s email exclude w ≡ ok tt
      → IsUnused email exclude
  unfolding ensure_email_unique
  ensure_email_unique-IsUnused email exclude h i m got =
      elim (Result-cases (B.members.list_members true w.members)) [
        | inr (x, e) ↦ absurd (ground arith)
        | inl (ms, e) ↦
            no_email-ok B.unicode email exclude ms m (ground arith)
              (M.list-complete w.members true i m ms e got refl)
      ]

  -- A write of a member whose address is free keeps the addresses unique.
  pub written-HasUniqueEmails :
      (v : Member) (t : B.members.Store)
      → IsValid w.members
      → ((i : MemberId)
          → B.members.get_by_id i t ≡ (if v.id == i then ok v else B.members.get_by_id i w.members))
      → IsFree v.email v.id
      → HasUniqueEmails B w.members
      → HasUniqueEmails B t
  written-HasUniqueEmails v t valid reads free unique i j a b ga gb same = ground (
    arith,
    reads i,
    reads j,
    eq_iff v.id i,
    eq_iff v.id j,
    free i a,
    free j b,
    M.keyed w.members i a valid,
    M.keyed w.members j b valid,
    equal_fold_comm B.unicode a.email b.email,
    unique i j a b,
  )
