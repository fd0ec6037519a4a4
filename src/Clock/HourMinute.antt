-- ===== src/Clock/HourMinute.antt =====
-- `time.Parse("15:04", s)` and `t.Format("15:04")` of Go's standard library. A text is the list of
-- its bytes. The layout's `15` takes one digit or two, its `04` takes exactly two.
use booking_venue.Base.{
  ℕ, ◌+◌, ◌-◌, ◌*◌, ◌/◌, ◌%◌, Bool, ◌&&◌, Option, none, some, List, [], ◌∷◌, leb, ltb, ◌==◌,
  if◌then◌else◌,
}

abbrev pub Text : Type 0
Text = List ℕ

abbrev pub is_digit : ℕ → Bool
is_digit c = leb b'0' c && leb c b'9'

abbrev pub digit : ℕ → ℕ
digit c = c - b'0'

-- The hour and the minute of a parsed time.
pub record HourMinute : Type 0 where
  pub hour : ℕ
  pub minute : ℕ

-- The minute: two digits and the end of the text.
unfoldable pub parse_minute : ℕ → Text → Option HourMinute
parse_minute h (c ∷ d ∷ []) =
    if is_digit c && is_digit d && ltb (10 * digit c + digit d) 60
    then some (record { hour = h; minute = 10 * digit c + digit d })
    else none
parse_minute h _ = none

-- The hour has been read: its range, the colon, and the minute.
unfoldable pub parse_colon : ℕ → Text → Option HourMinute
unfolding parse_minute
parse_colon h [] = none
parse_colon h (c ∷ s) = if ltb h 24 && c == b':' then parse_minute h s else none

unfoldable pub parse : Text → Option HourMinute
unfolding parse_colon
parse [] = none
parse (c ∷ []) = none
parse (c ∷ d ∷ s) =
    if is_digit c
    then if is_digit d
      then parse_colon (10 * digit c + digit d) s
      else parse_colon (digit c) (d ∷ s)
    else none

unfoldable pub format : HourMinute → Text
format t =
    (b'0' + t.hour / 10)
    ∷ (b'0' + t.hour % 10)
    ∷ b':'
    ∷ (b'0' + t.minute / 10)
    ∷ (b'0' + t.minute % 10)
    ∷ []
