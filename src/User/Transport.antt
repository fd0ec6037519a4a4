-- ===== src/User/Transport.antt =====
-- internal/transport/auth_handler.go and user_handler.go, and the routes of cmd/app/main.go. What gin
-- makes of a body is given: `none` is its error.
pub mod Frame
use booking_venue.Base.{ℕ, Option, none, some, Result, ok, err, ◌>>=◌}
use booking_venue.Clock.HourMinute.{Text}
use booking_venue.Strings.{parse_uint}
use booking_venue.User.Model.{
  User, RegisterRequest, LoginRequest, Claims, UpdateUserRequest, UserResponse, UserError,
}
use booking_venue.User.Repo.{Store}
use booking_venue.User.Auth.{AuthEnv, register_user, login_user}
use booking_venue.User.Accounts.{AccountEnv, get_me, update_me, become_owner, get_public_profile}

pub data Failure : Type 0 where
  bad_body unauthorized invalid_token_claims invalid_user_id : Failure
  failed_with : UserError → Failure

pub data Body : Type 0 where
  error_body : Failure → Body
  token_body : Text → Body
  user_body : UserResponse → Body

pub record Response : Type 0 where
  pub code : ℕ
  pub body : Body

abbrev pub refused : ℕ → Failure → Response
refused code e = record { code = code; body = error_body e }

-- The value of the key `claims` of a gin context, if there is one.
pub data ContextValue : Type 0 where
  claims_value : Claims → ContextValue
  other_value : ContextValue

-- getClaims
unfoldable pub get_claims : Option ContextValue → Result Failure Claims
get_claims none = err unauthorized
get_claims (some other_value) = err invalid_token_claims
get_claims (some (claims_value c)) = ok c

abbrev pub token_reply : ℕ → Result UserError Text → Response
token_reply code (err e) = refused code (failed_with e)
token_reply code (ok token) = record { code = 200; body = token_body token }

abbrev pub registered_reply : Result UserError Text × Store → Response × Store
registered_reply (token, st) = (token_reply 500 token, st)

-- Register
unfoldable pub handle_register : AuthEnv → Option RegisterRequest → Store → Response × Store
handle_register env none st = (refused 400 bad_body, st)
handle_register env (some req) st = registered_reply (register_user env req st)

-- Login
unfoldable pub handle_login : AuthEnv → Option LoginRequest → Store → Response
handle_login env none st = refused 400 bad_body
handle_login env (some req) st = token_reply 401 (login_user env req st)

abbrev pub shown : User → Response
shown u = record {
  code = 200;
  body = user_body (record { id = u.id; full_name = u.full_name; email = u.email; role = u.role });
}

abbrev pub me_reply : Result UserError User → Response
me_reply (err e) = refused 500 (failed_with e)
me_reply (ok u) = shown u

-- GetMe
unfoldable pub handle_get_me : AccountEnv → Option ContextValue → Store → Response
handle_get_me env context st = elim (get_claims context) [
  | err e ↦ refused 401 e
  | ok claims ↦ me_reply (get_me env claims.user_id st)
]

-- The response to a saved row, or to an error, which leaves the table.
abbrev pub saved_reply : ℕ → Store → Result UserError (User × Store) → Response × Store
saved_reply code st (err e) = (refused code (failed_with e), st)
saved_reply code st (ok (u, st')) = (shown u, st')

-- UpdateMe
unfoldable pub handle_update_me :
    AccountEnv → Option ContextValue → Option UpdateUserRequest → Store → Store → Response × Store
handle_update_me env context body read st = elim (get_claims context) [
  | err e ↦ (refused 401 e, st)
  | ok claims ↦ elim body [
    | none ↦ (refused 400 bad_body, st)
    | some req ↦ saved_reply 500 st (update_me env claims.user_id req read st)
  ]
]

-- BecomeOwner
unfoldable pub handle_become_owner :
    AccountEnv → Option ContextValue → Store → Store → Response × Store
handle_become_owner env context read st = elim (get_claims context) [
  | err e ↦ (refused 401 e, st)
  | ok claims ↦ saved_reply 403 st (become_owner env claims.user_id read st)
]

abbrev pub profile_reply : Result UserError UserResponse → Response
profile_reply (err e) = refused 500 (failed_with e)
profile_reply (ok profile) = record { code = 200; body = user_body profile }

-- GetPublicProfile
unfoldable pub handle_public_profile : AccountEnv → Text → Store → Response
handle_public_profile env id st = elim (parse_uint 64 id) [
  | none ↦ refused 400 invalid_user_id
  | some k ↦ profile_reply (get_public_profile env k st)
]

-- The routes of the two RegisterRoutes, with what each handler reads of its request.
pub data Request : Type 0 where
  register_request : Option RegisterRequest → Request
  login_request : Option LoginRequest → Request
  me_request become_owner_request : Request
  update_me_request : Option UpdateUserRequest → Request
  profile_request : Text → Request

-- One request, with the context that the middleware has left.
unfoldable pub serve :
    AuthEnv → AccountEnv → Option ContextValue → Request → Store → Store → Response × Store
serve auth env context (register_request b) read st = handle_register auth b st
serve auth env context (login_request b) read st = (handle_login auth b st, st)
serve auth env context me_request read st = (handle_get_me env context st, st)
serve auth env context become_owner_request read st = handle_become_owner env context read st
serve auth env context (update_me_request b) read st = handle_update_me env context b read st
serve auth env context (profile_request id) read st = (handle_public_profile env id st, st)

-- main: the middleware that would read the header Authorization and set `claims` is commented out, so no
-- handler finds them in its context.
unfoldable pub app : AuthEnv → AccountEnv → Request → Store → Store → Response × Store
app auth env req read st = serve auth env none req read st
