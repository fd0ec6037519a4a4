-- ===== src/Clock/Calendar.antt =====
-- A year and a day of the year determine the day: what `t.Year() == u.Year() &&
-- t.YearDay() == u.YearDay()` tests is that two local days are one.
use booking_venue.Base.{ℕ, ◌+◌, ◌*◌, ◌/◌, ◌%◌, ◌≡◌, ◌≤◌, ◌↔◌, arith, ap, sym, ◌∙◌}
use booking_venue.Clock.{
  Time, local_day, century, in_century, year_of_4, year_of, year_day_of, year, year_day,
}

century-le : (d : ℕ) → century d ≤ 3
unfolding century
century-le d = omega arith

year_of_4-le : (d : ℕ) → year_of_4 d ≤ 3
unfolding year_of_4
year_of_4-le d = omega arith

in_century_split : (d : ℕ) → d ≡ 146097 * (d / 146097) + 36524 * century d + in_century d
unfolding in_century
in_century_split d = omega arith

in_century_bound : (d : ℕ) → in_century d / 1461 ≤ 24
unfolding in_century
in_century_bound d = omega arith

year_day_split : (d : ℕ) → in_century d % 1461 ≡ 365 * year_of_4 d + year_day_of d
unfolding year_of_4 year_day_of in_century
year_day_split d = omega arith

-- The day number from the year and the day of the year.
abbrev day_from : ℕ → ℕ → ℕ
day_from y n = 146097 * (y / 400) + 36524 * (y / 100 % 4) + 1461 * (y / 4 % 25) + 365 * (y % 4) + n

year_digits :
    (q c k r : ℕ)
    → c ≤ 3
    → k ≤ 24
    → r ≤ 3
    → let y = 400 * q + 100 * c + 4 * k + r in
      (y / 400 ≡ q) × (y / 100 % 4 ≡ c) × (y / 4 % 25 ≡ k) × (y % 4 ≡ r)
year_digits q c k r hc hk hr = (omega arith, omega arith, omega arith, omega arith)

pub day_from-year_of : (d : ℕ) → day_from (year_of d) (year_day_of d) ≡ d
unfolding year_of
day_from-year_of d =
    let digits =
      year_digits (d / 146097) (century d) (in_century d / 1461) (year_of_4 d) (century-le d)
        (in_century_bound d) (year_of_4-le d) in
    rw (digits.0, digits.1, digits.2, digits.3)
      (omega (arith, in_century_split d, year_day_split d))

-- Two times have the same year and day of the year exactly when their local days are one.
pub year_day_iff :
    (t u : Time) → ((year t ≡ year u) × (year_day t ≡ year_day u)) ↔ (local_day t ≡ local_day u)
unfolding year year_day
year_day_iff t u = (
  λ h.
      sym (day_from-year_of (local_day t))
      ∙ ap (λ y. day_from y (year_day_of (local_day t))) h.0
      ∙ ap (λ n. day_from (year_of (local_day u)) n) h.1
      ∙ day_from-year_of (local_day u),
  λ e. (ap year_of e, ap year_day_of e),
)
