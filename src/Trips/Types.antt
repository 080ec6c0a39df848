-- ===== src/Trips/Types.antt =====
-- internal/app/trips/types.go, and the application errors that several methods of service.go return.
use eastbay_overland_rally_p.Prelude.{ℕ, ℤ, String, Bool, Option, List, [], ◌∷◌}
use eastbay_overland_rally_p.Domain.{TripId, TripStatus, DraftVisibility, Time, Float64}
use eastbay_overland_rally_p.Ports.{Failure, app, text}

-- The three states of a field in a patch. The zero value of the Go struct is `unspecified`, and its
-- two other constructors set its flags so that no further state is made.
pub data Optional (A : Type 0) : Type 0 where
  unspecified null : Optional A
  value : A → Optional A

pub record CreateTripDraftInput : Type 0 where
  pub name : String

pub record TripCreated : Type 0 where
  pub id : TripId
  pub status : TripStatus
  pub draft_visibility : DraftVisibility

pub record LocationPatch : Type 0 where
  pub label : Optional String
  pub address : Optional String
  pub latitude : Optional Float64
  pub longitude : Optional Float64
  pub clear_coordinates : Bool

pub record UpdateTripInput : Type 0 where
  pub name : Optional String
  pub description : Optional String
  pub start_date : Optional Time
  pub end_date : Optional Time
  pub capacity_rigs : Optional ℤ
  pub difficulty_text : Optional String
  pub meeting_location : Optional (Option LocationPatch)  -- Optional[*LocationPatch]
  pub comms_requirements_text : Optional String
  pub recommended_requirements_text : Optional String
  pub artifact_ids : Optional (List String)

abbrev pub plain_error : ℕ → String → String → Failure
plain_error status code message =
    app (record { status = status; code = code; message = message; details = [] })

abbrev pub validation_error : String → String → String → Failure
validation_error message field problem = app (record {
  status = 422;
  code = "VALIDATION_ERROR";
  message = message;
  details = (field, text problem) ∷ [];
})

abbrev pub no_such_trip : Failure
no_such_trip = plain_error 404 "TRIP_NOT_FOUND" "trip not found"

abbrev pub invalid_status : Failure
invalid_status = plain_error 409 "TRIP_INVALID_STATUS" "invalid trip status"

abbrev pub not_available : String → Failure
not_available message = plain_error 409 "RSVP_NOT_AVAILABLE" message
