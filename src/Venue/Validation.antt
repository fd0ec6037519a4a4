-- ===== src/Venue/Validation.antt =====
-- internal/validation/time.go: the parser of the times of a schedule. A text is the list of its
-- bytes.
pub mod Agree
use booking_venue.Base.{
  ℕ, ◌+◌, ◌-◌, ◌*◌, Bool, false, true, not, ◌&&◌, ◌||◌, Option, none, some, List, [], ◌∷◌, leb, ltb,
  ◌==◌, if◌then◌else◌, Result, ok, err, ◌>>=◌, ◌>>◌, fail_if,
}
use booking_venue.Clock.{Time, utc, date_of, before}
use booking_venue.Clock.HourMinute.{Text, is_digit, digit}
use booking_venue.Venue.Model.{
  VenueError, bad_time_format, bad_time_parts, bad_hours, bad_minutes, hours_range, minutes_range,
  bad_start_time, bad_end_time,
}

-- `:[0-5][0-9]$`
unfoldable pub matches_minutes : Text → Bool
matches_minutes (c ∷ m ∷ n ∷ []) = c == b':' && (is_digit m && leb m b'5') && is_digit n
matches_minutes _ = false

-- `[0-1]?[0-9]` of two digits, or `2[0-3]`
abbrev pub matches_hour : ℕ → ℕ → Bool
matches_hour h k =
    (is_digit h && leb h b'1' && is_digit k) || (h == b'2' && (is_digit k && leb k b'3'))

-- The regular expression `^([0-1]?[0-9]|2[0-3]):[0-5][0-9]$`
unfoldable pub matches : Text → Bool
unfolding matches_minutes
matches [] = false
matches (h ∷ []) = false
matches (h ∷ k ∷ s) =
    (is_digit h && matches_minutes (k ∷ s)) || (matches_hour h k && matches_minutes s)

-- `regexp.MustCompile(":").Split(s, -1)`
abbrev pub push_byte : ℕ → List Text → List Text
push_byte c [] = (c ∷ []) ∷ []
push_byte c (w ∷ ws) = (c ∷ w) ∷ ws

unfoldable pub split_colon : Text → List Text
split_colon [] = [] ∷ []
split_colon (c ∷ s) = let rest = split_colon s in if c == b':' then [] ∷ rest else push_byte c rest

-- `strconv.Atoi` on a text without a sign that is too short to overflow: `none` is its error.
unfoldable pub atoi_from : ℕ → Text → Option ℕ
atoi_from n [] = some n
atoi_from n (c ∷ s) = let rest = atoi_from (10 * n + digit c) s in if is_digit c then rest else none

unfoldable pub atoi : Text → Option ℕ
unfolding atoi_from
atoi [] = none
atoi (c ∷ s) = atoi_from 0 (c ∷ s)

abbrev pub two_parts : Text → List Text → Result VenueError (Text × Text)
two_parts s (h ∷ m ∷ []) = ok (h, m)
two_parts s _ = err (bad_time_parts s)

abbrev pub parsed : Option ℕ → VenueError → Result VenueError ℕ
parsed none e = err e
parsed (some n) e = ok n

-- ValidateTime, at the time `now` of the server.
unfoldable pub validate_time : Time → Text → Result VenueError Time
unfolding matches split_colon atoi
validate_time now s = do
  fail_if (not (matches s)) (bad_time_format s)
  (h, m) ← two_parts s (split_colon s)
  hours ← parsed (atoi h) (bad_hours h)
  minutes ← parsed (atoi m) (bad_minutes m)
  fail_if (ltb 23 hours) (hours_range hours)
  fail_if (ltb 59 minutes) (minutes_range minutes)
  ok (date_of now hours minutes utc)

abbrev pub in_error :
    {A : Type 0} → (VenueError → VenueError) → Result VenueError A → Result VenueError A
in_error wrap (ok a) = ok a
in_error wrap (err e) = err (wrap e)

-- CompareTimes, the two calls of `time.Now` included.
unfoldable pub compare_times : Time → Time → Text → Text → Result VenueError Bool
unfolding validate_time
compare_times now now' start_time end_time = do
  t_start ← in_error bad_start_time (validate_time now start_time)
  t_end ← in_error bad_end_time (validate_time now' end_time)
  ok (before t_start t_end)
