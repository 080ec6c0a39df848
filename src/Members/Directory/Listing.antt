-- ===== src/Members/Directory/Listing.antt =====
-- ListMembers and its caller.
use eastbay_overland_rally_p.Prelude.{
  ◌≡◌, refl, inl, inr, true, Bool, Bool-cases, List, [], ◌∷◌, ◌++◌, Mem, arith, string_eq, eq_iff,
}
use eastbay_overland_rally_p.Sorting.{sort_slice}
use eastbay_overland_rally_p.Sorting.Laws.{Mem-sort_slice}
use eastbay_overland_rally_p.Text.{Unicode}
use eastbay_overland_rally_p.Domain.{Member, SubjectId}
use eastbay_overland_rally_p.Ports.{ok, Result-cases}
use eastbay_overland_rally_p.Ports.Laws.{MemberLaws}
use eastbay_overland_rally_p.Service.{Backend, World}
use eastbay_overland_rally_p.Members.Types.{Settings}
use eastbay_overland_rally_p.Members.Directory.{
  contains_member_id, display_less, with_caller, list_all,
}

contains_member_id-Mem :
    (ms : List Member) (m : Member) → Mem m ms → contains_member_id ms m.id ≡ true
unfolding contains_member_id
contains_member_id-Mem [] m h = elim h [ ]
contains_member_id-Mem (x ∷ ms) m (inl e) = ground (arith, e, eq_iff x.id m.id)
contains_member_id-Mem (x ∷ ms) m (inr h) = ground (arith, contains_member_id-Mem ms m h)

Mem-last : (ms : List Member) (m : Member) → Mem m (ms ++ m ∷ [])
Mem-last [] m = inl refl
Mem-last (x ∷ ms) m = inr (Mem-last ms m)

with_caller-caller :
    (u : Unicode) (me : Member) (ms : List Member)
    → (me.is_active ≡ true → Mem me ms)
    → contains_member_id (with_caller u (ok me) ms) me.id ≡ true
with_caller-caller u me ms there = elim (Bool-cases me.is_active) [
  | inl active ↦ ground (arith, active, contains_member_id-Mem ms me (there active))
  | inr inactive ↦ ground (
    arith,
    inactive,
    contains_member_id-Mem (sort_slice (display_less u) (ms ++ me ∷ [])) me
        (Mem-sort_slice (display_less u) me (ms ++ me ∷ []) (Mem-last ms me)),
  )
]

-- A listing that ListMembers returns holds the caller, if the caller has a profile, also when inactive
-- members are left out and the caller is inactive. The store of members is to be valid.
pub list_all-caller :
    (B : Backend) {IsValid : B.members.Store → Type 0} (M : MemberLaws B.members IsValid)
    (s : Settings) (subject : SubjectId) (b : Bool) (w : World B) (me : Member) (ms : List Member)
    → IsValid w.members
    → B.members.get_by_subject subject w.members ≡ ok me
    → list_all B s subject b w ≡ ok ms
    → contains_member_id ms me.id ≡ true
unfolding list_all
list_all-caller B M s subject b w me ms valid mine h =
    let stored = M.subject-id w.members subject me valid mine in
    elim (Result-cases (B.members.list_members b w.members)) [
      | inr (x, e) ↦ absurd (ground arith)
      | inl (l, e) ↦
          let shown = M.list-complete w.members b me.id me l e stored in
          ground (
            arith,
            λ (all : b ≡ true). contains_member_id-Mem l me (shown (ground arith)),
            with_caller-caller B.unicode me l (λ active. shown (ground arith)),
          )
    ]
