-- ===== src/Trips/Patch/Authority.antt =====
-- Who may call UpdateTrip, from the state of the trip.
use eastbay_overland_rally_p.Prelude.{◌≡◌, ◌↔◌, ◌⊎◌, true, arith, string_eq}
use eastbay_overland_rally_p.Domain.{Trip, MemberId, draft, published}
use eastbay_overland_rally_p.Ports.{ok}
use eastbay_overland_rally_p.Trips.Access.{is_organizer, is_draft_visible_to_caller}
use eastbay_overland_rally_p.Trips.Patch.{authorize_status, authorize_update}

-- a draft that the caller may see, or a published trip that the caller organizes
abbrev pub MayUpdate : Trip → MemberId → Type 0
MayUpdate t caller =
    ((t.status ≡ draft) × (is_draft_visible_to_caller t caller ≡ true))
    ⊎ ((t.status ≡ published) × (is_organizer t caller ≡ true))

-- UpdateTrip is permitted exactly for a draft that the caller may see and for a published trip that the
-- caller organizes.
pub authorize_update_iff :
    (t : Trip) (caller : MemberId) → (authorize_update t caller ≡ ok tt) ↔ MayUpdate t caller
unfolding authorize_update authorize_status is_draft_visible_to_caller
authorize_update_iff t caller = ground arith
