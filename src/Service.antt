-- ===== src/Service.antt =====
-- What a service holds and how its methods run: the repositories, the clock and the generators of
-- identifiers (trips.Service, members.Service), and methods as state passing with errors as values.
-- What was written before an error stays written, so the state comes back beside the error too.
pub mod Errors
use eastbay_overland_rally_p.Prelude.{ℕ, ◌+◌, Bool}
use eastbay_overland_rally_p.Text.{Unicode}
use eastbay_overland_rally_p.Domain.{Time, utc, Trip, TripId, MemberId, Rsvp}
use eastbay_overland_rally_p.Ports.{
  Result, ok, err, Failure, require, TripRepository, MemberRepository, RsvpRepository,
}

-- The code and the data that the services do not contain. `now n` is the n-th reading of the clock,
-- `new_trip_id n` and `new_member_id n` the identifier that the n-th call of the generator returns.
pub record Backend : Type 1 where
  pub trips : TripRepository
  pub members : MemberRepository
  pub rsvps : RsvpRepository
  pub unicode : Unicode
  pub now : ℕ → Time
  pub new_trip_id : ℕ → TripId
  pub new_member_id : ℕ → MemberId

pub record World (B : Backend) : Type 0 where
  pub trips : B.trips.Store
  pub members : B.members.Store
  pub rsvps : B.rsvps.Store
  pub readings : ℕ
  pub minted : ℕ

abbrev pub Exec : Backend → Type 0 → Type 0
Exec B A = World B → Result A × World B

module _ {B : Backend} {A : Type 0} where
  abbrev pub pure : A → Exec B A
  pure a w = (ok a, w)

  abbrev pub lift : Result A → Exec B A
  lift r w = (r, w)

  -- a call that only reads
  abbrev pub reads : (World B → Result A) → Exec B A
  reads f w = (f w, w)

module _ {B : Backend} {A C : Type 0} where
  abbrev pub continue : Result A → (A → Exec B C) → Exec B C
  continue (ok a) f w = f a w
  continue (err e) f w = (err e, w)

  infixl 5 ◌>>=◌ ◌>>◌
  abbrev pub ◌>>=◌ : Exec B A → (A → Exec B C) → Exec B C
  ◌>>=◌ m f w = let (r, w') = m w in continue r f w'

  abbrev pub ◌>>◌ : Exec B A → Exec B C → Exec B C
  m >> n = m >>= λ _. n

module _ {B : Backend} where
  -- `if !cond { return err }`
  abbrev pub ensure : Bool → Failure → Exec B Unit
  ensure b e = lift (require b e)

  -- time.Now().UTC()
  abbrev pub read_clock : Exec B Time
  read_clock w = (ok (utc (B.now w.readings)), record w { readings = w.readings + 1 })

  abbrev pub save_trip : Trip → Exec B Unit
  save_trip t w = let (r, s) = B.trips.save t w.trips in (r, record w { trips = s })

  abbrev pub create_trip : Trip → Exec B Unit
  create_trip t w = let (r, s) = B.trips.create t w.trips in (r, record w { trips = s })

  abbrev pub upsert_rsvp : Rsvp → Exec B Unit
  upsert_rsvp r w = let (x, s) = B.rsvps.upsert r w.rsvps in (x, record w { rsvps = s })
