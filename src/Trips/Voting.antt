-- ===== src/Trips/Voting.antt =====
-- The tests and the arithmetic of SetMyRSVP in service.go.
use eastbay_overland_rally_p.Prelude.{
  ℕ, ℤ, pos, negsuc, ◌+ℤ◌, ltb_ℤ, Bool, true, false, not, ◌&&◌, Option, none, some, if◌then◌else◌,
}
use eastbay_overland_rally_p.Domain.{Trip, Rsvp, RsvpResponse, rsvp_other, is_yes, is_published}
use eastbay_overland_rally_p.Ports.{Result, ok, err, Failure, rsvp_not_found, require, ◌>>=◌, ◌>>◌}
use eastbay_overland_rally_p.Trips.Types.{plain_error, validation_error}

abbrev pub not_published : Failure
not_published = plain_error 409 "TRIP_NOT_PUBLISHED" "rsvp is only allowed for published trips"

abbrev pub missing_capacity : Failure
missing_capacity =
    plain_error 409 "TRIP_MISSING_CAPACITY" "published trip must have capacity to accept rsvps"

abbrev pub invalid_response : Failure
invalid_response = validation_error "invalid response" "response" "must be YES, NO, or UNSET"

abbrev pub at_capacity : Failure
at_capacity = plain_error 409 "TRIP_AT_CAPACITY" "trip is at capacity"

-- a capacity that is there and at least 1
abbrev pub capacity_of : Option ℤ → Result ℤ
capacity_of none = err missing_capacity
capacity_of (some cap) = if ltb_ℤ cap (pos 1) then err missing_capacity else ok cap

abbrev pub is_known : RsvpResponse → Bool
is_known (rsvp_other _) = false
is_known _ = true

-- the guards before the first read of the answers
unfoldable pub check_open : Trip → RsvpResponse → Result ℤ
check_open t response = do
  require (is_published t.status) not_published
  cap ← capacity_of t.capacity_rigs
  require (is_known response) invalid_response
  ok cap

-- `hasExisting` and `existing`: ErrNotFound means that there is no answer yet
abbrev pub existing_answer : Result Rsvp → Result (Option Rsvp)
existing_answer (ok r) = ok (some r)
existing_answer (err rsvp_not_found) = ok none
existing_answer (err e) = err e

abbrev pub was_yes : Option Rsvp → Bool
was_yes none = false
was_yes (some r) = is_yes r.status

abbrev pub delta : Bool → RsvpResponse → ℤ
delta existing_yes target =
    if existing_yes
    then if not (is_yes target) then negsuc 0 else pos 0
    else if is_yes target
    then pos 1
    else pos 0

-- the attendance after the answer, not below 0
unfoldable pub new_attendance : ℕ → Option Rsvp → RsvpResponse → ℤ
unfolding ◌+ℤ◌
new_attendance cur existing target =
    let sum = pos cur +ℤ delta (was_yes existing) target in if ltb_ℤ sum (pos 0) then pos 0 else sum

-- the room for one more YES
unfoldable pub check_room : ℤ → RsvpResponse → ℤ → Result Unit
check_room att target cap = require (not (is_yes target && ltb_ℤ cap att)) at_capacity
