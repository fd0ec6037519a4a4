-- ===== src/Examples/Users.antt =====
-- Two users, and a concrete bcrypt and jwt: a hash is the password, a token lists its claims and the
-- secret.
use booking_venue.Base.{
  ℕ, zero, suc, subst, lt→ltb, ◌*◌, ◌<◌, ◌≡◌, ◌↔◌, refl, true, false, ◌&&◌, none, some, [], ◌∷◌,
  ltb, length, if◌then◌else◌, Result, ok, err, arith, Bool-cases, inl, inr,
}
use booking_venue.Clock.{Time, utc, second, day_length}
use booking_venue.Clock.HourMinute.{Text}
use booking_venue.Strings.{same_text}
use booking_venue.Strings.Laws.{same_text_self}
use booking_venue.User.Model.{
  Role, owner, client, admin, User, RegisterRequest, LoginRequest, Claims, UpdateUserRequest,
  UserError, hash_failed, invalid_token,
}
use booking_venue.User.Repo.{Store, first_by_id, get_by_id, update_user}
use booking_venue.User.Auth.{
  Token, Crypto, AuthEnv, token_claims, generate_token, parse_token, register_user, login_user,
}
use booking_venue.User.Auth.Login.{IsCrypto, IsLoggedIn, login_user_iff, register_user-login}
use booking_venue.User.Accounts.{AccountEnv, update_me, become_owner}
use booking_venue.User.Accounts.Roles.{update_me-demotes}
use booking_venue.User.Transport.{register_request, me_request, serve}
use booking_venue.User.History.{IsSound, Reached, start, next, Reached-IsSound}

abbrev pub role_code : Role → ℕ
role_code owner = 0
role_code client = 1
role_code admin = 2

abbrev code_role : ℕ → Role
code_role zero = owner
code_role (suc zero) = client
code_role _ = admin

code_role-role_code : (r : Role) → code_role (role_code r) ≡ r
code_role-role_code owner = refl
code_role-role_code client = refl
code_role-role_code admin = refl

abbrev pub plain_hash : Text → Text → Result UserError Text
plain_hash salt p = if ltb 72 (length p) then err hash_failed else ok p

abbrev pub plain_sign : Text → Claims → Result UserError Text
plain_sign secret c = ok (c.user_id ∷ role_code c.role ∷ c.expires_at ∷ secret)

abbrev pub plain_parse : Text → ℕ → Text → Result UserError Token
plain_parse secret now (i ∷ r ∷ e ∷ s) =
    if same_text s secret && ltb now (e * second)
    then ok (record {
      claims = some (record { user_id = i; role = code_role r; expires_at = e });
      valid = true;
    })
    else err invalid_token
plain_parse secret now _ = err invalid_token

abbrev pub plain : Crypto
plain = record { hash = plain_hash; compare = same_text; sign = plain_sign; parse = plain_parse }

plain-IsCrypto : IsCrypto plain
plain-IsCrypto = record {
  compare_hash = compare;
  parse_signed = parse;
  signs =
      λ secret claims. (claims.user_id ∷ role_code claims.role ∷ claims.expires_at ∷ secret, refl);
}
  where
    compare : (salt p hashed : Text) → plain_hash salt p ≡ ok hashed → same_text hashed p ≡ true
    compare salt p hashed h = elim (Bool-cases (ltb 72 (length p))) [
      | inl long ↦ cc (rw long at h)
      | inr short ↦
          let same : hashed ≡ p = cc (rw short at h) in
          subst (λ x. same_text hashed x ≡ true) same (same_text_self hashed)
    ]

    parse :
        (secret : Text) (now : ℕ) (c : Claims) (token : Text)
        → plain_sign secret c ≡ ok token
        → now < c.expires_at * second
        → plain_parse secret now token ≡ ok (record { claims = some c; valid = true })
    parse secret now c token h early =
        let signed : (c.user_id ∷ role_code c.role ∷ c.expires_at ∷ secret) ≡ token = cc h in
        subst (λ t. plain_parse secret now t ≡ ok (record { claims = some c; valid = true })) signed
          (rw
            (
              same_text_self secret,
              lt→ltb now (c.expires_at * second) early,
              code_role-role_code c.role,
            )
            refl)

abbrev now : Time
now = record { instant = 700_000 * day_length; location = utc }

abbrev pub auth_env : AuthEnv
auth_env = record {
  crypto = plain;
  jwt_secret = 115 ∷ 51 ∷ [];
  salt = [];
  now = now;
  db_fault = none;
}

abbrev env : AccountEnv
env = record { read_fault = none; write_fault = none }

-- Ann, a client, with her email and her password.
abbrev pub ann : User
ann = record {
  id = 1;
  deleted = false;
  full_name = 65 ∷ [];
  email = 97 ∷ 64 ∷ [];
  password = 112 ∷ 119 ∷ [];
  role = client;
}

abbrev users : Store
users = record { users = ann ∷ []; next_id = 2 }

abbrev bob : RegisterRequest
bob = record { full_name = 66 ∷ []; email = 98 ∷ 64 ∷ []; password = 120 ∷ [] }

users-IsSound : IsSound users.users
users-IsSound = ((tt, tt), (λ e. cc, tt))

-- A token that Ann is given.
abbrev pub ann_token : Text
ann_token = 1 ∷ 1 ∷ 60480086400 ∷ 115 ∷ 51 ∷ []

pub ann-signed : generate_token auth_env ann ≡ ok ann_token
unfolding generate_token token_claims
ann-signed = refl

abbrev bob_token : Text
bob_token = 2 ∷ 1 ∷ 60480086400 ∷ 115 ∷ 51 ∷ []

bob-registered : (register_user auth_env bob users).0 ≡ ok bob_token
unfolding register_user token_claims
bob-registered = refl

register_user-login_example :
    let there : AuthEnv = record auth_env { now = now; db_fault = none } in
    let login : LoginRequest = record { email = bob.email; password = bob.password } in
    (login_token : Text) × (login_user there login (register_user auth_env bob users).1
      ≡ ok login_token)
    × (claims : Claims) × (parse_token (record there { now = now }) login_token ≡ ok claims)
    × (claims.user_id ≡ 2)
    × (claims.role ≡ client)
unfolding token_claims
register_user-login_example =
    register_user-login auth_env bob users bob_token now now plain-IsCrypto bob-registered
      (omega arith)

login_user_iff_example :
    (login_user auth_env (record { email = ann.email; password = 112 ∷ [] }) users ≡ ok bob_token)
    ↔ IsLoggedIn auth_env (record { email = ann.email; password = 112 ∷ [] }) users bob_token
login_user_iff_example =
    login_user_iff auth_env (record { email = ann.email; password = 112 ∷ [] }) users bob_token refl

abbrev ann_owner : User
ann_owner = record ann { role = owner }

abbrev renamed : User
renamed = record ann { full_name = 90 ∷ [] }

abbrev rename : UpdateUserRequest
rename = record { full_name = some (90 ∷ []); email = none; role = none }

abbrev with_row : User → Store
with_row u = record { users = u ∷ []; next_id = 2 }

ann-owns : become_owner env 1 users users ≡ ok (ann_owner, with_row ann_owner)
unfolding become_owner get_by_id first_by_id update_user
ann-owns = refl

ann-renamed : update_me env 1 rename users (with_row ann_owner) ≡ ok (renamed, with_row renamed)
unfolding update_me get_by_id first_by_id update_user
ann-renamed = refl

update_me-demotes_example :
    (ann_owner.role ≡ owner)
    × (first_by_id 1 (with_row ann_owner).users ≡ ok ann_owner)
    × (renamed.role ≡ client)
    × (first_by_id 1 (with_row renamed).users ≡ ok renamed)
update_me-demotes_example =
    update_me-demotes env env 1 rename users (with_row ann_owner) (with_row renamed) ann_owner
      renamed ann-owns ann-renamed

abbrev registering : Store
registering = (serve auth_env env none (register_request (some bob)) users users).1

-- Bob registers, and reads his account.
two_requests : Reached users (serve auth_env env none me_request registering registering).1
two_requests =
    let one = next auth_env env none (register_request (some bob)) start start in
    next auth_env env none me_request one one

Reached-IsSound_example :
    IsSound (serve auth_env env none me_request registering registering).1.users
Reached-IsSound_example = Reached-IsSound two_requests users-IsSound
