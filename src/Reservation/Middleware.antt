-- ===== src/Reservation/Middleware.antt =====
-- internal/middleware/auth_middleware.go of the reservation service. The package jwt is a parameter.
pub mod Passing
use booking_venue.Base.{
  ℕ, Bool, true, false, Option, none, some, List, [], ◌∷◌, if◌then◌else◌, Result, ok, err, ◌>>=◌,
}
use booking_venue.Clock.HourMinute.{Text}
use booking_venue.Strings.{bytes, same_text, is_empty_text, split}
use booking_venue.Reservation.Model.{Claims}

-- `jwt.ParseWithClaims`: the secret, the instant and the token; the claims with `Valid`.
pub record Jwt : Type 0 where
  pub parse : Text → ℕ → Text → Option (Claims × Bool)

pub data Refusal : Type 0 where
  missing_header invalid_header invalid_token : Refusal

-- The token of a header of two parts, the first of them `Bearer`.
unfoldable pub bearer : List Text → Result Refusal Text
bearer (scheme ∷ token ∷ []) =
    if same_text scheme (bytes "Bearer") then ok token else err invalid_header
bearer _ = err invalid_header

abbrev pub token_of : Text → Result Refusal Text
token_of header = if is_empty_text header then err missing_header else bearer (split b' ' header)

abbrev pub valid_claims : Option (Claims × Bool) → Result Refusal Claims
valid_claims none = err invalid_token
valid_claims (some (claims, valid)) = if valid then ok claims else err invalid_token

-- AuthMiddleware: what it stores in the context of the request, or why it ends it.
unfoldable pub auth_middleware : Jwt → Text → ℕ → Text → Result Refusal Claims
unfolding bearer
auth_middleware jwt secret now header = do
  token ← token_of header
  valid_claims (jwt.parse secret now token)
