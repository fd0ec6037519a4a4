-- ===== src/Clock.antt =====
-- The part of Go's package `time` that the services use. A `Time` is an instant, in nanoseconds,
-- with the fixed offset of its location. Instants are counted from Monday, 1 January of the year
-- -399 (UTC), 400 Gregorian years before the zero `Time`, so that every time that JSON can carry
-- is a natural number.
pub mod Calendar
pub mod HourMinute
use booking_venue.Base.{
  ℕ, ◌+◌, ◌-◌, ◌*◌, ◌/◌, ◌%◌, ◌≤◌, min, Bool, ltb, leb, ◌==◌, if◌then◌else◌, ℤ, pos, negsuc,
  max_int64,
}

-- An offset from UTC in seconds; one of the two is 0.
pub record Location : Type 0 where
  pub east : ℕ
  pub west : ℕ

pub record Time : Type 0 where
  pub instant : ℕ
  pub location : Location

abbrev pub utc : Location
utc = record { east = 0; west = 0 }

abbrev pub second : ℕ
second = 1_000_000_000

abbrev pub minute : ℕ
minute = 60_000_000_000

-- time.Hour
abbrev pub hour : ℕ
hour = 3_600_000_000_000

abbrev pub day_length : ℕ
day_length = 86_400_000_000_000

-- The zero `Time`: 146097 days after the first instant.
abbrev pub zero_instant : ℕ
zero_instant = 12_622_780_800_000_000_000

abbrev pub is_zero : Time → Bool
is_zero t = t.instant == zero_instant

abbrev pub before : Time → Time → Bool
before t u = ltb t.instant u.instant

abbrev pub after : Time → Time → Bool
after t u = ltb u.instant t.instant

-- `t.Sub(u)`, a `Duration`: it saturates at the ends of an `int64`.
abbrev pub sub : Time → Time → ℤ
sub t u =
    if leb u.instant t.instant
    then pos (min (t.instant - u.instant) max_int64)
    else negsuc (min (u.instant - t.instant - 1) max_int64)

-- Nanoseconds on the wall clock of the time's own location.
unfoldable pub wall : Time → ℕ
wall t = t.instant + t.location.east * second - t.location.west * second

-- The number of the local day.
unfoldable pub local_day : Time → ℕ
unfolding wall
local_day t = wall t / day_length

-- Monday is 0; day 0 is a Monday.
unfoldable pub weekday : Time → ℕ
unfolding local_day
weekday t = local_day t % 7

-- Year and day of the year of a day number. The year counts from -399.
unfoldable pub century : ℕ → ℕ
century d = min (d % 146097 / 36524) 3

unfoldable pub in_century : ℕ → ℕ
unfolding century
in_century d = d % 146097 - 36524 * century d

unfoldable pub year_of_4 : ℕ → ℕ
unfolding in_century
year_of_4 d = min (in_century d % 1461 / 365) 3

unfoldable pub year_of : ℕ → ℕ
unfolding year_of_4
year_of d = 400 * (d / 146097) + 100 * century d + 4 * (in_century d / 1461) + year_of_4 d

unfoldable pub year_day_of : ℕ → ℕ
unfolding year_of_4
year_day_of d = in_century d % 1461 - 365 * year_of_4 d

unfoldable pub year : Time → ℕ
unfolding local_day year_of
year t = year_of (local_day t)

unfoldable pub year_day : Time → ℕ
unfolding local_day year_day_of
year_day t = year_day_of (local_day t)

-- `time.Date(t.Year(), t.Month(), t.Day(), h, m, 0, 0, loc)` for the date of `t`.
unfoldable pub date_of : Time → ℕ → ℕ → Location → Time
unfolding local_day
date_of t h m loc = record {
  instant =
      local_day t * day_length + h * hour + m * minute + loc.west * second - loc.east * second;
  location = loc;
}

-- Nanoseconds since midnight on the local wall clock.
unfoldable pub time_of_day : Time → ℕ
unfolding wall
time_of_day t = wall t % day_length

-- The offset is less than a day, and the instant is not at the very beginning of the count: all
-- times of the years 0 to 9999 are such.
pub record IsSane (t : Time) : Type 0 where
  pub late : 3 * day_length ≤ t.instant
  pub east_short : t.location.east ≤ 86_400
  pub west_short : t.location.west ≤ 86_400
