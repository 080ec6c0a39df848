-- ===== src/Memory/Clock.antt =====
-- internal/adapters/memory/clock/manual_clock.go. A duration is a number of nanoseconds, and a clock
-- is not set back before year 0.
use eastbay_overland_rally_p.Prelude.{ℤ, pos, ◌+ℤ◌}
use eastbay_overland_rally_p.Prelude.Int.{pos_part}
use eastbay_overland_rally_p.Domain.{Time}

pub record ManualClock : Type 0 where
  pub now : Time

-- Set
abbrev pub set_clock : Time → ManualClock → ManualClock
set_clock t c = record c { now = t }

-- Add
abbrev pub add : ℤ → ManualClock → ManualClock
add d c = let n = c.now in record c { now = record n { instant = pos_part (pos n.instant +ℤ d) } }
