-- ===== src/Venue/Validation/Agree.antt =====
-- The parser of the venue service against Go's `time.Parse("15:04", s)`, which the reservation service
-- uses on the same texts.
use booking_venue.Base.{◌≡◌, refl, Option, none, some, [], ◌∷◌, Result, ok, err, arith}
use booking_venue.Clock.{Time, utc, date_of}
use booking_venue.Clock.HourMinute.{HourMinute, Text, parse}
use booking_venue.Venue.Model.{VenueError, bad_time_format}
use booking_venue.Venue.Validation.{validate_time}

-- Today at the parsed time, in UTC.
abbrev pub today : Time → HourMinute → Time
today now t = date_of now t.hour t.minute utc

abbrev pub today_or_error : Time → Text → Option HourMinute → Result VenueError Time
today_or_error now s none = err (bad_time_format s)
today_or_error now s (some t) = ok (today now t)

-- The venue service accepts exactly the texts that the reservation service can parse, as today at the
-- parsed hour and minute in UTC; any other text gives the one error of a bad format.
pub validate_time-parse :
    (now : Time) (s : Text) → validate_time now s ≡ today_or_error now s (parse s)
unfolding validate_time parse
validate_time-parse now [] = refl
validate_time-parse now (a ∷ []) = refl
validate_time-parse now (a ∷ b ∷ []) = ground arith
validate_time-parse now (a ∷ b ∷ c ∷ []) = ground arith
validate_time-parse now (a ∷ b ∷ c ∷ d ∷ []) = ground arith
validate_time-parse now (a ∷ b ∷ c ∷ d ∷ e ∷ []) = ground arith
validate_time-parse now (a ∷ b ∷ c ∷ d ∷ e ∷ f ∷ s) = ground arith
