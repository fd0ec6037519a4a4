-- ===== src/Gateway/Auth.antt =====
-- internal/middleware/auth.go and internal/models/claims.go. The packages jwt and uuid are a parameter.
pub mod Passing
use booking_venue.Base.{
  ℕ, Bool, true, false, Option, none, some, List, [], ◌∷◌, if◌then◌else◌, Result, ok, err, ◌>>=◌,
}
use booking_venue.Clock.HourMinute.{Text}
use booking_venue.Strings.{bytes, same_text, is_empty_text, split}

-- The parts of a request that the gateway reads or writes: the method, the path of the URL, and the
-- headers Authorization (empty where there is none), X-User-Id and X-User-Role.
pub record Request : Type 0 where
  pub method : Text
  pub path : Text
  pub authorization : Text
  pub user_id : Option Text
  pub user_role : Option Text

-- The value of `user_id` in the JSON of a token; `absent` stands for null as well.
pub data IdValue : Type 0 where
  number : ℕ → IdValue
  string : Text → IdValue
  absent : IdValue

-- The payload of a token, before it is decoded into Claims.
pub record Payload : Type 0 where
  pub user_id : IdValue
  pub role : Text

-- A UUID is the text that its String() gives.
pub record Claims : Type 0 where
  pub user_id : Text
  pub role : Text

-- What the gateway calls of jwt and uuid. The parser takes the key for an algorithm, the instant and
-- the token; it gives the payload of a token that it accepts, with `Valid`. `uuid` decodes a text.
pub record Tokens : Type 0 where
  pub parse : (Text → Option Text) → ℕ → Text → Option (Payload × Bool)
  pub uuid : Text → Option Text

pub data Refusal : Type 0 where
  missing_header invalid_header invalid_token : Refusal

-- The key is only given for the algorithm HS256.
abbrev pub key_for : Text → Text → Option Text
key_for secret alg = if same_text alg (bytes "HS256") then some secret else none

-- `encoding/json` decodes the text of a UUID through its UnmarshalText, which takes no
-- number; where there is no value the UUID stays the zero one.
abbrev pub decode_id : Tokens → IdValue → Option Text
decode_id tokens (number n) = none
decode_id tokens (string s) = tokens.uuid s
decode_id tokens absent = some (bytes "00000000-0000-0000-0000-000000000000")

abbrev pub with_role : Text → Option Text → Option Claims
with_role role none = none
with_role role (some id) = some (record { user_id = id; role = role })

-- `err != nil || !token.Valid`, the decoding of the claims included.
unfoldable pub valid_claims : Tokens → Option (Payload × Bool) → Result Refusal Claims
valid_claims tokens none = err invalid_token
valid_claims tokens (some (payload, valid)) =
    elim (with_role payload.role (decode_id tokens payload.user_id)) [
      | none ↦ err invalid_token
      | some claims ↦ if valid then ok claims else err invalid_token
    ]

-- Two parts, the first of them `Bearer`.
unfoldable pub bearer : List Text → Result Refusal Text
bearer (scheme ∷ token ∷ []) =
    if same_text scheme (bytes "Bearer") then ok token else err invalid_header
bearer _ = err invalid_header

abbrev pub token_of : Text → Result Refusal Text
token_of header = if is_empty_text header then err missing_header else bearer (split b' ' header)

-- The claims of the request's token.
unfoldable pub authenticate : Tokens → Text → ℕ → Text → Result Refusal Claims
unfolding bearer valid_claims
authenticate tokens secret now header = do
  token ← token_of header
  valid_claims tokens (tokens.parse (key_for secret) now token)

-- AuthUnless, for a request that is public or not: a public one passes as it is.
unfoldable pub auth_unless : Tokens → Text → ℕ → Bool → Request → Result Refusal Request
unfolding authenticate
auth_unless tokens secret now is_public req =
    if is_public
    then ok req
    else authenticate tokens secret now req.authorization >>= λ claims.
        ok (record req { user_id = some claims.user_id; user_role = some claims.role })
