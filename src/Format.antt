-- ===== src/Format.antt =====
-- How Go's packages fmt and time print a number (%d) and a date ("2006-01-02"), as the announcement
-- of a trip uses them.
pub mod Fuel
use Prim.Native.String.{◌++◌ as ◌·◌}
use eastbay_overland_rally_p.Prelude.{
  ℕ, zero, suc, ◌+◌, ◌-◌, ◌*◌, ◌/◌, ◌%◌, ℤ, pos, negsuc, String, ltb, leb, if◌then◌else◌, ◌≡◌, refl,
}
use eastbay_overland_rally_p.Domain.{Time}

abbrev digit : ℕ → String
digit zero = "0"
digit (suc zero) = "1"
digit (suc (suc zero)) = "2"
digit (suc (suc (suc zero))) = "3"
digit (suc (suc (suc (suc zero)))) = "4"
digit (suc (suc (suc (suc (suc zero))))) = "5"
digit (suc (suc (suc (suc (suc (suc zero)))))) = "6"
digit (suc (suc (suc (suc (suc (suc (suc zero))))))) = "7"
digit (suc (suc (suc (suc (suc (suc (suc (suc zero)))))))) = "8"
digit _ = "9"

-- the decimal digits of a number below the fuel or equal to it
pub digits_of : ℕ → ℕ → String
digits_of zero n = digit n
digits_of (suc fuel) n =
    let rest = digits_of fuel (n / 10) · digit (n % 10) in if ltb n 10 then digit n else rest

unfoldable pub format_nat : ℕ → String
unfolding digits_of
format_nat n = digits_of n n

-- %d
unfoldable pub format_int : ℤ → String
unfolding format_nat
format_int (pos n) = format_nat n
format_int (negsuc n) = "-" · format_nat (suc n)

-- the year, month and day of a day counted from 1 January of year 0 in the Gregorian calendar. The
-- count is moved to begin with 1 March of year -400, so that a leap day is the last of its year.
pub record Date : Type 0 where
  pub year : ℕ
  pub month : ℕ
  pub day : ℕ

unfoldable pub date_of_day : ℕ → Date
date_of_day n =
    let z = n + 146037 in
    let era = z / 146097 in
    let doe = z % 146097 in
    let yoe = (doe + doe / 36524 - doe / 1460 - doe / 146096) / 365 in
    let doy = doe + yoe / 100 - (365 * yoe + yoe / 4) in
    let mp = (5 * doy + 2) / 153 in
    let m = if ltb mp 10 then mp + 3 else mp - 9 in
    record {
      year = yoe + era * 400 + (if leb m 2 then 1 else 0) - 400;
      month = m;
      day = doy - (153 * mp + 2) / 5 + 1;
    }

abbrev pad2 : ℕ → String
pad2 n = if ltb n 10 then "0" · format_nat n else format_nat n

abbrev pad4 : ℕ → String
pad4 n =
    if ltb n 10
    then "000" · format_nat n
    else if ltb n 100
    then "00" · format_nat n
    else if ltb n 1000
    then "0" · format_nat n
    else format_nat n

abbrev nanoseconds_per_day : ℕ
nanoseconds_per_day = 86400 * 1000000000

-- t.UTC().Format("2006-01-02")
unfoldable pub format_date : Time → String
unfolding format_nat date_of_day
format_date t =
    let d = date_of_day (t.instant / nanoseconds_per_day) in
    pad4 d.year · "-" · pad2 d.month · "-" · pad2 d.day

leap_day :
    format_date (record { instant = 739310 * nanoseconds_per_day; location = "UTC" })
      · ""
      · format_int (negsuc 41)
      · format_int (pos 120)
    ≡ "2024-02-29-42120"
unfolding format_date format_int
leap_day = refl
