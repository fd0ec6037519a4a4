-- ===== src/Venue/Dto/Times.antt =====
-- The texts of times: what is parsed from them and what is written.
use booking_venue.Base.{
  ℕ, ◌+◌, ◌*◌, ◌≡◌, ◌<◌, some, [], ◌∷◌, ok, arith, Option-cases, inl, inr, ◌∙◌, ap,
}
use booking_venue.Clock.{Time, wall, time_of_day, date_of}
use booking_venue.Clock.HourMinute.{
  HourMinute, Text, digit, parse, parse_colon, parse_minute, format,
}
use booking_venue.Venue.Validation.{validate_time}
use booking_venue.Venue.Validation.Agree.{today, validate_time-parse}
use booking_venue.Venue.Dto.{hour_minute}

abbrev pub IsHourMinute : HourMinute → Type 0
IsHourMinute t = (t.hour < 24) × (t.minute < 60)

pub parse_minute-bounds :
    (h : ℕ) (s : Text) (t : HourMinute) → h < 24 → parse_minute h s ≡ some t → IsHourMinute t
unfolding parse_minute
parse_minute-bounds h [] t b e = cc
parse_minute-bounds h (c ∷ []) t b e = cc
parse_minute-bounds h (c ∷ d ∷ []) t b e = ground arith
parse_minute-bounds h (c ∷ d ∷ x ∷ s) t b e = cc

parse_colon-bounds : (h : ℕ) (s : Text) (t : HourMinute) → parse_colon h s ≡ some t → IsHourMinute t
unfolding parse_colon
parse_colon-bounds h [] t e = cc
parse_colon-bounds h (c ∷ s) t e = ground (arith, parse_minute-bounds h s t)

-- What is parsed is a time of a day.
pub parse-bounds : (s : Text) (t : HourMinute) → parse s ≡ some t → IsHourMinute t
unfolding parse
parse-bounds [] t e = cc
parse-bounds (c ∷ []) t e = cc
parse-bounds (c ∷ d ∷ s) t e =
    ground (
      arith,
      parse_colon-bounds (10 * digit c + digit d) s t,
      parse_colon-bounds (digit c) (d ∷ s) t,
    )

pub parse-format : (t : HourMinute) → IsHourMinute t → parse (format t) ≡ some t
unfolding parse format
parse-format t b = ground arith

pub hour_minute-today :
    (now : Time) (t : HourMinute) → IsHourMinute t → hour_minute (today now t) ≡ t
unfolding date_of time_of_day wall
hour_minute-today now t b = ground arith

-- An accepted text is today at the hour and minute that it says.
pub validate_time-ok :
    (now : Time) (s : Text) (t : Time)
    → validate_time now s ≡ ok t
    → (p : HourMinute) × (parse s ≡ some p) × (hour_minute t ≡ p)
validate_time-ok now s t h =
    let agree = validate_time-parse now s in
    elim (Option-cases (parse s)) [
      | inl q ↦ absurd (cc (rw (agree, q) at h))
      | inr (p, q) ↦ (
        p,
        q,
        ap hour_minute (cc (rw (agree, q) at h)) ∙ hour_minute-today now p (parse-bounds s p q),
      )
    ]
