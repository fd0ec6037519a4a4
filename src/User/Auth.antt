-- ===== src/User/Auth.antt =====
-- internal/services/auth_service.go. The packages bcrypt and jwt are a parameter.
pub mod Login
use booking_venue.Base.{
  ℕ, ◌+◌, ◌/◌, ◌<◌, ◌≡◌, Bool, true, false, not, ◌&&◌, ◌||◌, Option, none, some, if◌then◌else◌,
  Result, ok, err, ◌>>=◌, ◌>>◌, fail_if,
}
use booking_venue.Clock.{Time, second, day_length}
use booking_venue.Clock.HourMinute.{Text}
use booking_venue.User.Model.{
  client, User, RegisterRequest, LoginRequest, Claims, UserError, invalid_credentials,
  invalid_token,
}
use booking_venue.User.Repo.{Store, create_user, get_by_email}

-- A `jwt.Token` that is parsed: its claims, where they are of the type asked for, and `Valid`.
pub record Token : Type 0 where
  pub claims : Option Claims
  pub valid : Bool

-- What the service calls of bcrypt and jwt: a hash takes a salt and a password, a signature a secret
-- and claims; the parser takes the secret, the current instant and the token.
pub record Crypto : Type 0 where
  pub hash : Text → Text → Result UserError Text
  pub compare : Text → Text → Bool
  pub sign : Text → Claims → Result UserError Text
  pub parse : Text → ℕ → Text → Result UserError Token

-- The service, and what the world answers to one call.
pub record AuthEnv : Type 0 where
  pub crypto : Crypto
  pub jwt_secret : Text
  pub salt : Text
  pub now : Time
  pub db_fault : Option UserError

-- `jwt.NewNumericDate(t)`: whole seconds.
abbrev pub numeric_date : ℕ → ℕ
numeric_date instant = instant / second

-- What GenerateToken signs.
unfoldable pub token_claims : Time → User → Claims
token_claims now u = record {
  user_id = u.id;
  role = u.role;
  expires_at = numeric_date (now.instant + day_length);
}

-- GenerateToken
unfoldable pub generate_token : AuthEnv → User → Result UserError Text
generate_token env u = env.crypto.sign env.jwt_secret (token_claims env.now u)

abbrev pub checked_claims : Token → Result UserError Claims
checked_claims token = elim token.claims [
  | none ↦ err invalid_token
  | some claims ↦ fail_if (not token.valid) invalid_token >> ok claims
]

-- ParseToken
unfoldable pub parse_token : AuthEnv → Text → Result UserError Claims
parse_token env text =
    env.crypto.parse env.jwt_secret env.now.instant text >>= λ token. checked_claims token

-- The row that RegisterUser inserts.
unfoldable pub new_user : RegisterRequest → Text → User
new_user req hashed = record {
  id = 0;
  deleted = false;
  full_name = req.full_name;
  email = req.email;
  password = hashed;
  role = client;
}

-- The token for the row that was inserted.
abbrev pub registered : AuthEnv → Result UserError User × Store → Result UserError Text × Store
registered env (err e, st) = (err e, st)
registered env (ok u, st) = (generate_token env u, st)

-- RegisterUser
unfoldable pub register_user : AuthEnv → RegisterRequest → Store → Result UserError Text × Store
unfolding new_user generate_token create_user
register_user env req st = elim (env.crypto.hash env.salt req.password) [
  | err e ↦ (err e, st)
  | ok hashed ↦ registered env (create_user env.db_fault (new_user req hashed) st)
]

-- What LoginUser makes of the answer of the repository.
abbrev pub checked_password : AuthEnv → Text → Result UserError User → Result UserError Text
checked_password env password (err e) = err invalid_credentials
checked_password env password (ok u) =
    fail_if (not (env.crypto.compare u.password password)) invalid_credentials
    >> generate_token env u

-- LoginUser
unfoldable pub login_user : AuthEnv → LoginRequest → Store → Result UserError Text
unfolding generate_token
login_user env req st = checked_password env req.password (get_by_email env.db_fault req.email st)
