-- ===== src/Service/Errors.antt =====
-- Which errors the methods of the services return, and those of the repositories below them.
use eastbay_overland_rally_p.Prelude.{ℕ, ℤ, String, Bool, List, [], inl, inr}
use eastbay_overland_rally_p.Domain.{Trip, TripId, Member, MemberId, SubjectId, Rsvp}
use eastbay_overland_rally_p.Ports.{Result-cases}
use eastbay_overland_rally_p.Ports.Errors.{Raises, Within}
use eastbay_overland_rally_p.Service.{Backend, World, Exec, pure, ◌>>=◌}

-- the method returns no error of the application but with one of the statuses, in no world
pub record Throws {B : Backend} {A : Type 0} (statuses : List ℕ) (m : Exec B A) : Type 0 where
  pub throws : (w : World B) → Within statuses (m w).0

module _ {B : Backend} (statuses : List ℕ) where
  pub always :
      {A : Type 0} {m : Exec B A} → ((w : World B) → Within statuses (m w).0) → Throws statuses m
  always h = record { throws = h }

  pub returns : {A : Type 0} (a : A) → Throws statuses (pure {B = B} a)
  returns a = always λ w. tt

  pub bind-Throws :
      {A C : Type 0} (m : Exec B A) (f : A → Exec B C)
      → Throws statuses m
      → ((a : A) → Throws statuses (f a))
      → Throws statuses (m >>= f)
  bind-Throws m f h k = record {
    throws = λ w. elim (Result-cases (m w).0) [
      | inr (e, q) ↦
          let p : Within statuses (m w).0 = h.throws w in
          let raised : Raises statuses e = rw q at p in rw q raised
      | inl (a, q) ↦ rw q ((k a).throws (m w).1)
    ];
  }

-- No repository returns an error of the application: its errors are those of its port and of the
-- driver.
pub record ForeignErrors (B : Backend) : Type 0 where
  pub trip_created : (t : Trip) (s : B.trips.Store) → Within [] (B.trips.create t s).0
  pub trip_saved : (t : Trip) (s : B.trips.Store) → Within [] (B.trips.save t s).0
  pub trip_by_id : (id : TripId) (s : B.trips.Store) → Within [] (B.trips.get_by_id id s)
  pub trips_listed : (s : B.trips.Store) → Within [] (B.trips.list_published_and_canceled s)
  pub drafts_listed :
      (id : MemberId) (s : B.trips.Store) → Within [] (B.trips.list_drafts_visible_to id s)
  pub member_created : (m : Member) (s : B.members.Store) → Within [] (B.members.create m s).0
  pub member_updated : (m : Member) (s : B.members.Store) → Within [] (B.members.update m s).0
  pub member_by_id : (id : MemberId) (s : B.members.Store) → Within [] (B.members.get_by_id id s)
  pub member_by_subject :
      (sub : SubjectId) (s : B.members.Store) → Within [] (B.members.get_by_subject sub s)
  pub members_listed : (all : Bool) (s : B.members.Store) → Within [] (B.members.list_members all s)
  pub members_searched :
      (q : String) (n : ℤ) (s : B.members.Store)
      → Within [] (B.members.search_active_by_display_name q n s)
  pub rsvp_got : (id : TripId) (m : MemberId) (s : B.rsvps.Store) → Within [] (B.rsvps.get id m s)
  pub rsvp_upserted : (r : Rsvp) (s : B.rsvps.Store) → Within [] (B.rsvps.upsert r s).0
  pub rsvps_listed : (id : TripId) (s : B.rsvps.Store) → Within [] (B.rsvps.list_by_trip id s)
  pub rsvps_counted : (id : TripId) (s : B.rsvps.Store) → Within [] (B.rsvps.count_yes_by_trip id s)
