-- ===== src/Float64.antt =====
-- Go's `float64`, which carries the prices of bookings. The type and the few operations that the
-- services apply to it are a parameter of the model.
use booking_venue.Base.{min, max_int64, ℕ, Bool, ℤ, pos, ◌+◌, ◌*◌, ◌/◌, ◌==◌, pos_part}

pub record Float64 : Type 1 where
  pub F : Type 0
  pub mul : F → F → F
  -- `d.Hours()` of a `time.Duration`
  pub hours : ℤ → F
  -- `x <= 0`
  pub le_zero : F → Bool
  -- `int64(math.Round(x))`
  pub round : F → ℤ

-- Thousandths, for concrete inputs.
abbrev pub thousandths : Float64
thousandths = record {
  F = ℕ;
  mul = λ a b. a * b / 1000;
  hours = λ d. pos_part d / 3_600_000_000;
  le_zero = λ a. a == 0;
  round = λ a. pos (min ((a + 500) / 1000) max_int64);
}
