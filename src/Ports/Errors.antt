-- ===== src/Ports/Errors.antt =====
-- The errors of internal/app/trips/errors.go and internal/app/members/errors.go by their statuses,
-- against the errors of the code below the services, which the services pass through.
use eastbay_overland_rally_p.Prelude.{ℕ, Bool, true, false, ◌||◌, List, [], ◌∷◌, ◌≡◌, ◌==◌, nat_eq}
use eastbay_overland_rally_p.Ports.{
  Result, ok, err, Failure, require, app, backend, trip_not_found, trip_already_exists,
  member_not_found, subject_already_bound, member_already_exists, rsvp_not_found, ◌>>=◌,
}

-- the status is one of the list
abbrev pub declares : List ℕ → ℕ → Bool
declares [] s = false
declares (c ∷ cs) s = s == c || declares cs s

-- the statuses of the errors of the application
abbrev pub statuses : List ℕ
statuses = 404 ∷ 409 ∷ 422 ∷ []

-- an error of the application has one of the statuses
abbrev pub Raises : List ℕ → Failure → Type 0
Raises cs (app e) = declares cs e.status ≡ true
Raises cs _ = Unit

abbrev pub Within : {A : Type 0} → List ℕ → Result A → Type 0
Within cs (ok a) = Unit
Within cs (err e) = Raises cs e

pub foreign-Raises : (cs : List ℕ) (e : Failure) → Raises [] e → Raises cs e
foreign-Raises cs (app e) h = absurd cc
foreign-Raises cs (backend text) h = tt
foreign-Raises cs trip_not_found h = tt
foreign-Raises cs trip_already_exists h = tt
foreign-Raises cs member_not_found h = tt
foreign-Raises cs subject_already_bound h = tt
foreign-Raises cs member_already_exists h = tt
foreign-Raises cs rsvp_not_found h = tt

-- no error of the application, so none of another status
pub foreign : {A : Type 0} (cs : List ℕ) (r : Result A) → Within [] r → Within cs r
foreign cs (ok a) h = tt
foreign cs (err e) h = foreign-Raises cs e h

pub require-Within : (cs : List ℕ) (b : Bool) (e : Failure) → Raises cs e → Within cs (require b e)
require-Within cs true e h = tt
require-Within cs false e h = h

pub bind-Within :
    {A C : Type 0} (cs : List ℕ) (r : Result A) (f : A → Result C)
    → Within cs r
    → ((a : A) → Within cs (f a))
    → Within cs (r >>= f)
bind-Within cs (ok a) f h k = k a
bind-Within cs (err e) f h k = h
