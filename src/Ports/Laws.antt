-- ===== src/Ports/Laws.antt =====
-- What the services rely on of a repository: a write that succeeds is read back under its key and
-- changes nothing else, a create needs a new key, and a write that fails changes nothing.
use eastbay_overland_rally_p.Prelude.{
  ℕ, ◌+◌, ◌≡◌, ◌==◌, string_eq, if◌then◌else◌, ◌&&◌, true, Bool, List, Mem,
}
use eastbay_overland_rally_p.Domain.{Trip, TripId, MemberId, Rsvp, is_yes, Member, SubjectId}
use eastbay_overland_rally_p.Ports.{
  Failure, Result, ok, err, trip_not_found, MemberRepository, TripRepository, RsvpRepository,
}

pub record TripLaws (R : TripRepository) : Type 0 where
  pub get-save :
      (t : Trip) (s : R.Store) (id : TripId)
      → (R.save t s).0 ≡ ok tt
      → R.get_by_id id (R.save t s).1 ≡ (if t.id == id then ok t else R.get_by_id id s)
  pub get-create :
      (t : Trip) (s : R.Store) (id : TripId)
      → (R.create t s).0 ≡ ok tt
      → (R.get_by_id t.id s ≡ err trip_not_found)
        × (R.get_by_id id (R.create t s).1 ≡ (if t.id == id then ok t else R.get_by_id id s))
  pub create_error :
      (t : Trip) (s : R.Store) (e : Failure) → (R.create t s).0 ≡ err e → (R.create t s).1 ≡ s
  pub save_error :
      (t : Trip) (s : R.Store) (e : Failure) → (R.save t s).0 ≡ err e → (R.save t s).1 ≡ s

-- 1 for a stored YES, and 0 for another answer or none
abbrev pub yes_vote : Result Rsvp → ℕ
yes_vote (ok r) = if is_yes r.status then 1 else 0
yes_vote (err e) = 0

pub record RsvpLaws (R : RsvpRepository) : Type 0 where
  pub get-upsert :
      (r : Rsvp) (s : R.Store) (t : TripId) (m : MemberId)
      → (R.upsert r s).0 ≡ ok tt
      → R.get t m (R.upsert r s).1
        ≡ (if r.trip_id == t && r.member_id == m then ok r else R.get t m s)
  pub upsert_error :
      (r : Rsvp) (s : R.Store) (e : Failure) → (R.upsert r s).0 ≡ err e → (R.upsert r s).1 ≡ s
  -- a count is the number of members whose answer is YES: one answer changes it by that answer
  pub count-upsert :
      (r : Rsvp) (s : R.Store) (n : ℕ)
      → (R.upsert r s).0 ≡ ok tt
      → R.count_yes_by_trip r.trip_id s ≡ ok n
      → (k : ℕ) × (R.count_yes_by_trip r.trip_id (R.upsert r s).1 ≡ ok k)
        × (k + yes_vote (R.get r.trip_id r.member_id s) ≡ n + yes_vote (ok r))

-- The laws of the members hold in the stores that the repository itself reaches: `IsValid`.
pub record MemberLaws (R : MemberRepository) (IsValid : R.Store → Type 0) : Type 0 where
  pub keyed :
      (s : R.Store) (i : MemberId) (m : Member) → IsValid s → R.get_by_id i s ≡ ok m → m.id ≡ i
  pub create-IsValid : (m : Member) (s : R.Store) → IsValid s → IsValid (R.create m s).1
  pub update-IsValid : (m : Member) (s : R.Store) → IsValid s → IsValid (R.update m s).1
  pub create_error :
      (m : Member) (s : R.Store) (e : Failure) → (R.create m s).0 ≡ err e → (R.create m s).1 ≡ s
  pub update_error :
      (m : Member) (s : R.Store) (e : Failure) → (R.update m s).0 ≡ err e → (R.update m s).1 ≡ s
  pub get-create :
      (m : Member) (s : R.Store) (i : MemberId)
      → (R.create m s).0 ≡ ok tt
      → R.get_by_id i (R.create m s).1 ≡ (if m.id == i then ok m else R.get_by_id i s)
  pub get-update :
      (m : Member) (s : R.Store) (i : MemberId)
      → (R.update m s).0 ≡ ok tt
      → R.get_by_id i (R.update m s).1 ≡ (if m.id == i then ok m else R.get_by_id i s)
  pub subject-id :
      (s : R.Store) (subject : SubjectId) (m : Member)
      → IsValid s
      → R.get_by_subject subject s ≡ ok m
      → R.get_by_id m.id s ≡ ok m
  pub list-complete :
      (s : R.Store) (b : Bool) (i : MemberId) (m : Member) (ms : List Member)
      → R.list_members b s ≡ ok ms
      → R.get_by_id i s ≡ ok m
      → (if b then true else m.is_active) ≡ true
      → Mem m ms
  pub subject-create :
      (m : Member) (s : R.Store)
      → (R.create m s).0 ≡ ok tt
      → R.get_by_subject m.subject (R.create m s).1 ≡ ok m
  pub subject-update :
      (s : R.Store) (subject : SubjectId) (old m : Member)
      → IsValid s
      → R.get_by_subject subject s ≡ ok old
      → m.id ≡ old.id
      → (R.update m s).0 ≡ ok tt
      → R.get_by_subject subject (R.update m s).1 ≡ ok m
