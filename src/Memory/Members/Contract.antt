-- ===== src/Memory/Members/Contract.antt =====
-- The member repository in memory and the laws of its port.
use eastbay_overland_rally_p.Prelude.{
  ◌≡◌, sym, inl, inr, true, Bool, List, [], ◌∷◌, Mem, ◌==◌, string_eq, eq_iff, arith, if◌then◌else◌,
  Option-cases,
}
use eastbay_overland_rally_p.Prelude.Assoc.{lookup, values, lookup-insert, Mem-values}
use eastbay_overland_rally_p.Text.{Unicode}
use mathlib.Core.Path.{subst}
use eastbay_overland_rally_p.Sorting.{sort_slice}
use eastbay_overland_rally_p.Sorting.Laws.{Mem-sort_slice}
use eastbay_overland_rally_p.Domain.{Member, MemberId, SubjectId}
use eastbay_overland_rally_p.Ports.{Failure, ok, err}
use eastbay_overland_rally_p.Ports.Laws.{MemberLaws}
use eastbay_overland_rally_p.Memory.Members.{
  MemberStore, create, update, get_by_id, get_by_subject, found_member, select, list_members,
  member_less, memory_members,
}

-- Every member is stored under its identifier.
abbrev pub IsKeyed : MemberStore → Type 0
IsKeyed s = (i : MemberId) (m : Member) → get_by_id i s ≡ ok m → m.id ≡ i

get-create_lem :
    (m : Member) (s : MemberStore) (i : MemberId)
    → (create m s).0 ≡ ok tt
    → get_by_id i (create m s).1 ≡ (if m.id == i then ok m else get_by_id i s)
unfolding create get_by_id
get-create_lem m s i h = ground (arith, lookup-insert m.id i m s.by_id)

create_error_lem :
    (m : Member) (s : MemberStore) (e : Failure) → (create m s).0 ≡ err e → (create m s).1 ≡ s
unfolding create
create_error_lem m s e h = ground arith

get-update_lem :
    (m : Member) (s : MemberStore) (i : MemberId)
    → (update m s).0 ≡ ok tt
    → get_by_id i (update m s).1 ≡ (if m.id == i then ok m else get_by_id i s)
unfolding update get_by_id
get-update_lem m s i h = ground (arith, lookup-insert m.id i m s.by_id)

update_error_lem :
    (m : Member) (s : MemberStore) (e : Failure) → (update m s).0 ≡ err e → (update m s).1 ≡ s
unfolding update
update_error_lem m s e h = ground arith

create-IsKeyed : (m : Member) (s : MemberStore) → IsKeyed s → IsKeyed (create m s).1
unfolding create get_by_id
create-IsKeyed m s k i n h = ground (arith, lookup-insert m.id i m s.by_id, eq_iff m.id i, k i n)

update-IsKeyed : (m : Member) (s : MemberStore) → IsKeyed s → IsKeyed (update m s).1
unfolding update get_by_id
update-IsKeyed m s k i n h = ground (arith, lookup-insert m.id i m s.by_id, eq_iff m.id i, k i n)

subject-id_lem :
    (s : MemberStore) (subject : SubjectId) (m : Member)
    → IsKeyed s
    → get_by_subject subject s ≡ ok m
    → get_by_id m.id s ≡ ok m
unfolding get_by_subject get_by_id
subject-id_lem s subject m k h = elim (Option-cases (lookup subject s.id_by_sub)) [
  | inl e ↦ absurd (ground arith)
  | inr (id, e) ↦
      let found : found_member (lookup id s.by_id) ≡ ok m = ground arith in
      subst (λ j. found_member (lookup j s.by_id) ≡ ok m) (sym (k id m found)) found
]

subject-create_lem :
    (m : Member) (s : MemberStore)
    → (create m s).0 ≡ ok tt
    → get_by_subject m.subject (create m s).1 ≡ ok m
unfolding create get_by_subject
subject-create_lem m s h = ground (
  arith,
  lookup-insert m.id m.id m s.by_id,
  lookup-insert m.subject m.subject m.id s.id_by_sub,
  eq_iff m.id m.id,
  eq_iff m.subject m.subject,
)

subject-update_lem :
    (s : MemberStore) (subject : SubjectId) (old m : Member)
    → IsKeyed s
    → get_by_subject subject s ≡ ok old
    → m.id ≡ old.id
    → (update m s).0 ≡ ok tt
    → get_by_subject subject (update m s).1 ≡ ok m
unfolding update get_by_subject get_by_id
subject-update_lem s subject old m k h same done =
    elim (Option-cases (lookup subject s.id_by_sub)) [
      | inl e ↦ absurd (ground arith)
      | inr (id, e) ↦ ground (arith, k id old, lookup-insert m.id id m s.by_id, eq_iff m.id id)
    ]

Mem-select :
    (p : Member → Bool) (m : Member) (ms : List Member)
    → p m ≡ true
    → Mem m ms
    → Mem m (select p ms)
unfolding select
Mem-select p m [] h there = elim there [ ]
Mem-select p m (x ∷ ms) h (inl e) = let q : p x ≡ true = rw (← e) h in rw q (inl e)
Mem-select p m (x ∷ ms) h (inr there) = ground (arith, Mem-select p m ms h there)

module _ (u : Unicode) where
  list-complete_lem :
      (s : MemberStore) (b : Bool) (i : MemberId) (m : Member) (ms : List Member)
      → list_members u b s ≡ ok ms
      → get_by_id i s ≡ ok m
      → (if b then true else m.is_active) ≡ true
      → Mem m ms
  unfolding list_members get_by_id
  list-complete_lem s b i m ms l h active =
      let p = λ (x : Member). if b then true else x.is_active in
      let here =
        Mem-sort_slice (member_less u) m (select p (values s.by_id))
          (Mem-select p m (values s.by_id) active (Mem-values i m s.by_id (ground arith))) in
      let listed : sort_slice (member_less u) (select p (values s.by_id)) ≡ ms = ground arith in
      subst (λ l. Mem m l) listed here

  -- In the stores whose members stand under their identifiers, which both writes keep: a create or an
  -- update that succeeds is read back under the member's identifier and changes no other read, one that
  -- fails changes nothing, the member of a subject is the one stored under its identifier, the member
  -- last written for a subject is read back under the subject, and a listing holds every stored member
  -- that it is to show.
  pub memory_members-MemberLaws : MemberLaws (memory_members u) IsKeyed
  memory_members-MemberLaws = record {
    keyed = λ s i m k h. k i m h;
    create-IsValid = create-IsKeyed;
    update-IsValid = update-IsKeyed;
    create_error = create_error_lem;
    update_error = update_error_lem;
    get-create = get-create_lem;
    get-update = get-update_lem;
    subject-id = subject-id_lem;
    list-complete = list-complete_lem;
    subject-create = subject-create_lem;
    subject-update = subject-update_lem;
  }
