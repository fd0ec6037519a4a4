-- ===== src/Strings.antt =====
-- The functions of Go's packages `strings` and `strconv` that the services call, on texts as lists of
-- bytes.
pub mod Laws
pub mod Suffixes
use Prim.Native.Char.{code}
use Prim.Native.String
use Prim.Native.String.{String}
use booking_venue.Base.{
  ℕ, zero, suc, ◌+◌, ◌-◌, ◌*◌, ◌^◌, ℤ, pos, negsuc, Bool, true, false, ◌&&◌, Option, none, some,
  List, [], ◌∷◌, ◌++◌, ◌==◌, ltb, if◌then◌else◌,
}
use booking_venue.Clock.HourMinute.{Text, is_digit, digit}

-- A literal of ASCII characters.
abbrev pub bytes : String → Text
bytes String.[] = []
bytes (String.◌∷◌ c s) = code c ∷ bytes s

-- The equality of two texts, in Go and in SQL.
abbrev pub same_text : Text → Text → Bool
same_text [] [] = true
same_text (c ∷ s) (d ∷ t) = c == d && same_text s t
same_text _ _ = false

abbrev pub is_empty_text : Text → Bool
is_empty_text [] = true
is_empty_text (c ∷ s) = false

-- `strings.HasPrefix(s, p)`
unfoldable pub has_prefix : Text → Text → Bool
has_prefix s [] = true
has_prefix [] (d ∷ p) = false
has_prefix (c ∷ s) (d ∷ p) = c == d && has_prefix s p

-- `strings.HasSuffix(s, p)`
unfoldable pub has_suffix : Text → Text → Bool
has_suffix [] p = same_text [] p
has_suffix (c ∷ s) p = if same_text (c ∷ s) p then true else has_suffix s p

-- What is left of `s` after a prefix as long as the given one.
unfoldable pub after_prefix : Text → Text → Text
after_prefix s [] = s
after_prefix [] (d ∷ p) = []
after_prefix (c ∷ s) (d ∷ p) = after_prefix s p

-- `strings.TrimPrefix(s, p)`
unfoldable pub trim_prefix : Text → Text → Text
unfolding has_prefix after_prefix
trim_prefix s p = if has_prefix s p then after_prefix s p else s

-- `strings.TrimSuffix(s, p)`
unfoldable pub trim_suffix : Text → Text → Text
trim_suffix [] p = []
trim_suffix (c ∷ s) p = if same_text (c ∷ s) p then [] else c ∷ trim_suffix s p

abbrev pub push_byte : ℕ → List Text → List Text
push_byte c [] = (c ∷ []) ∷ []
push_byte c (s ∷ ss) = (c ∷ s) ∷ ss

-- `strings.Split(s, sep)` for a separator of one byte.
unfoldable pub split : ℕ → Text → List Text
split sep [] = [] ∷ []
split sep (c ∷ s) = let rest = split sep s in if c == sep then [] ∷ rest else push_byte c rest

-- `strconv.ParseUint(s, 10, bits)`: `none` is its error.
unfoldable pub parse_digits : ℕ → ℕ → Text → Option ℕ
parse_digits bits n [] = if ltb n (2 ^ bits) then some n else none
parse_digits bits n (c ∷ s) =
    let rest = parse_digits bits (10 * n + digit c) s in if is_digit c then rest else none

unfoldable pub parse_uint : ℕ → Text → Option ℕ
unfolding parse_digits
parse_uint bits [] = none
parse_uint bits (c ∷ s) = parse_digits bits 0 (c ∷ s)

-- `strconv.Atoi(s)` of a 64-bit `int`, in the sign's two ranges.
abbrev pub positive_int : Option ℕ → Option ℤ
positive_int none = none
positive_int (some n) = if ltb n (2 ^ 63) then some (pos n) else none

abbrev pub negative_int : Option ℕ → Option ℤ
negative_int none = none
negative_int (some zero) = some (pos 0)
negative_int (some (suc n)) = if ltb n (2 ^ 63) then some (negsuc n) else none

unfoldable pub atoi : Text → Option ℤ
atoi [] = none
atoi (c ∷ s) =
    if c == b'-'
    then negative_int (parse_uint 64 s)
    else if c == b'+'
    then positive_int (parse_uint 64 s)
    else positive_int (parse_uint 64 (c ∷ s))

-- The conversion of an `int` to `uint`, which wraps around.
unfoldable pub to_uint : ℤ → ℕ
to_uint (pos n) = n
to_uint (negsuc n) = 2 ^ 64 - 1 - n
