-- ===== src/Ports.antt =====
-- internal/ports/out: what the services ask of the repositories, with the errors of the ports and of
-- the services (internal/app/trips/errors.go, internal/app/members/errors.go).
-- A repository is a store with operations on it. An operation that writes returns its result beside
-- the new store; one that reads returns its result. `backend` is any error that a driver may return
-- beside the sentinel errors of a port.
pub mod Laws
pub mod Idempotency
pub mod Errors
use eastbay_overland_rally_p.Prelude.{
  ℕ, ℤ, String, Bool, true, false, List, ◌≡◌, refl, ◌⊎◌, inl, inr,
}
use eastbay_overland_rally_p.Domain.{Trip, TripId, MemberId, Member, SubjectId, Rsvp}

-- a value of the map[string]any of an application error
pub data Detail : Type 0 where
  text : String → Detail
  int : ℤ → Detail
  texts : List String → Detail

-- trips.Error, and members.Error with the same fields
pub record Error : Type 0 where
  pub status : ℕ
  pub code : String
  pub message : String
  pub details : List (String × Detail)

pub data Failure : Type 0 where
  app : Error → Failure
  trip_not_found trip_already_exists : Failure
  member_not_found subject_already_bound member_already_exists : Failure
  rsvp_not_found : Failure
  backend : String → Failure

pub data Result (A : Type 0) : Type 0 where
  ok : A → Result A
  err : Failure → Result A

-- To split on a computed result and keep the equation.
pub Result-cases :
    {A : Type 0} (r : Result A) → ((a : A) × (r ≡ ok a)) ⊎ ((e : Failure) × (r ≡ err e))
Result-cases (ok a) = inl (a, refl)
Result-cases (err e) = inr (e, refl)

infixl 5 ◌>>=◌ ◌>>◌
abbrev pub ◌>>=◌ : {A B : Type 0} → Result A → (A → Result B) → Result B
ok a >>= f = f a
err e >>= f = err e

-- `if !cond { return err }`
abbrev pub require : Bool → Failure → Result Unit
require true e = ok tt
require false e = err e

abbrev pub ◌>>◌ : {B : Type 0} → Result Unit → Result B → Result B
m >> k = m >>= λ _. k

pub record TripRepository : Type 1 where
  pub Store : Type 0
  pub create : Trip → Store → Result Unit × Store
  pub save : Trip → Store → Result Unit × Store
  pub get_by_id : TripId → Store → Result Trip
  pub list_published_and_canceled : Store → Result (List Trip)
  pub list_drafts_visible_to : MemberId → Store → Result (List Trip)

pub record MemberRepository : Type 1 where
  pub Store : Type 0
  pub create : Member → Store → Result Unit × Store
  pub update : Member → Store → Result Unit × Store
  pub get_by_id : MemberId → Store → Result Member
  pub get_by_subject : SubjectId → Store → Result Member
  pub list_members : Bool → Store → Result (List Member)
  pub search_active_by_display_name : String → ℤ → Store → Result (List Member)

pub record RsvpRepository : Type 1 where
  pub Store : Type 0
  pub get : TripId → MemberId → Store → Result Rsvp
  pub upsert : Rsvp → Store → Result Unit × Store
  pub list_by_trip : TripId → Store → Result (List Rsvp)
  pub count_yes_by_trip : TripId → Store → Result ℕ
