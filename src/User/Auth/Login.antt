-- ===== src/User/Auth/Login.antt =====
-- Registration, login and the tokens of auth_service.go.
use booking_venue.Base.{
  ℕ, ◌*◌, ◌<◌, ◌≡◌, ◌≢◌, refl, ap, sym, ◌↔◌, inl, inr, true, false, Option, none, some, ◌||◌,
  Result, ok, err, All, All-map, [], ◌∷◌, ◌++◌, Bool-cases, Result-cases, subst,
}
use booking_venue.Clock.{Time, second}
use booking_venue.Clock.HourMinute.{Text}
use booking_venue.User.Model.{client, User, RegisterRequest, LoginRequest, Claims, UserError}
use booking_venue.User.Repo.{Store, create_user, get_by_email, first_by_email, has_id, has_email}
use booking_venue.User.Repo.Rows.{absent-All, first_by_email-append, first_by_email-live}
use booking_venue.User.Auth.{
  Crypto, AuthEnv, token_claims, generate_token, parse_token, new_user, registered, register_user,
  checked_password, login_user,
}

-- The documented behaviour of bcrypt and jwt: a hash is accepted with its password, the claims of a
-- token that has not expired are read back, and to sign with a key of bytes does not fail.
pub record IsCrypto (crypto : Crypto) : Type 0 where
  pub compare_hash :
      (salt password hashed : Text)
      → crypto.hash salt password ≡ ok hashed
      → crypto.compare hashed password ≡ true
  pub parse_signed :
      (secret : Text) (now : ℕ) (claims : Claims) (token : Text)
      → crypto.sign secret claims ≡ ok token
      → now < claims.expires_at * second
      → crypto.parse secret now token ≡ ok (record { claims = some claims; valid = true })
  pub signs :
      (secret : Text) (claims : Claims) → (token : Text) × (crypto.sign secret claims ≡ ok token)

-- The row under which a request to register is stored.
unfoldable pub registered_row : RegisterRequest → Text → ℕ → User
registered_row req hashed k = record (new_user req hashed) { id = k }

-- A successful insert of a new row has passed both constraints.
pub create_user-ok :
    (fault : Option UserError) (req : RegisterRequest) (hashed : Text) (st : Store) (u : User)
    → (create_user fault (new_user req hashed) st).0 ≡ ok u
    → (All (λ v. (v.id ≢ st.next_id) × (v.email ≢ req.email)) st.users)
      × (u ≡ registered_row req hashed st.next_id)
      × ((create_user fault (new_user req hashed) st).1.users ≡ st.users ++ u ∷ [])
unfolding create_user new_user registered_row
create_user-ok (some e) req hashed st u h = cc h
create_user-ok none req hashed st u h =
    elim (Bool-cases (has_id st.next_id st.users || has_email req.email st.users)) [
      | inl taken ↦ cc (rw taken at h)
      | inr free ↦
          let same : registered_row req hashed st.next_id ≡ u = cc (rw free at h) in
          (
            absent-All st.next_id req.email st.users free,
            sym same,
            rw free (ap (λ w. st.users ++ w ∷ []) same),
          )
    ]

-- The claims of the token that a row is given.
unfoldable pub IsTokenOf : User → Claims → Type 0
IsTokenOf u claims = (claims.user_id ≡ u.id) × (claims.role ≡ u.role)

-- A token is read back, until it expires, as the claims of the row.
pub parse_token-generate :
    (env : AuthEnv) (u : User) (token : Text) (now : Time)
    → IsCrypto env.crypto
    → generate_token env u ≡ ok token
    → now.instant < (token_claims env.now u).expires_at * second
    → parse_token (record env { now = now }) token ≡ ok (token_claims env.now u)
unfolding parse_token generate_token
parse_token-generate env u token now laws h early =
    rw (laws.parse_signed env.jwt_secret now.instant (token_claims env.now u) token h early) refl

-- What a successful login has found: the live row of the email, whose hash accepts the password, and
-- the token signed for it.
unfoldable pub IsLoggedIn : AuthEnv → LoginRequest → Store → Text → Type 0
IsLoggedIn env req st token =
    (u : User) × (first_by_email req.email st.users ≡ ok u)
    × (u.email ≡ req.email)
    × (u.deleted ≡ false)
    × (env.crypto.compare u.password req.password ≡ true)
    × (generate_token env u ≡ ok token)

checked_password-ok :
    (env : AuthEnv) (password : Text) (r : Result UserError User) (token : Text)
    → checked_password env password r ≡ ok token
    → (u : User) × (r ≡ ok u)
      × (env.crypto.compare u.password password ≡ true)
      × (generate_token env u ≡ ok token)
checked_password-ok env password (err e) token h = cc h
checked_password-ok env password (ok u) token h =
    elim (Bool-cases (env.crypto.compare u.password password)) [
      | inl same ↦ (u, refl, same, rw same at h)
      | inr other ↦ cc (rw other at h)
    ]

-- Where the database answers, LoginUser returns a token exactly when the live row of the email accepts
-- the password, and the token is the one signed for that row.
pub login_user_iff :
    (env : AuthEnv) (req : LoginRequest) (st : Store) (token : Text)
    → env.db_fault ≡ none
    → (login_user env req st ≡ ok token) ↔ IsLoggedIn env req st token
unfolding login_user get_by_email IsLoggedIn
login_user_iff env req st token up = (there, back)
  where
    there : login_user env req st ≡ ok token → IsLoggedIn env req st token
    there h =
        let (u, found, same, made) = checked_password-ok env req.password _ token (rw up at h) in
        let live = first_by_email-live req.email st.users u found in
        (u, found, live.0, live.1, same, made)

    back : IsLoggedIn env req st token → login_user env req st ≡ ok token
    back (u, found, _, _, same, made) = rw (up, found, same) made

-- A successful registration has hashed the password and appended the new row under the next id, whose
-- id and email no row had.
unfoldable pub IsRegistered : AuthEnv → RegisterRequest → Store → Text → Text → Type 0
unfolding register_user
IsRegistered env req st token hashed =
    let u = registered_row req hashed st.next_id in
    (env.crypto.hash env.salt req.password ≡ ok hashed)
    × All (λ v. (v.id ≢ u.id) × (v.email ≢ u.email)) st.users
    × ((register_user env req st).1.users ≡ st.users ++ u ∷ [])
    × (generate_token env u ≡ ok token)

registered-ok :
    (env : AuthEnv) (out : Result UserError User × Store) (token : Text)
    → (registered env out).0 ≡ ok token
    → (u : User) × (out.0 ≡ ok u) × (generate_token env u ≡ ok token)
registered-ok env (err e, st) token h = cc h
registered-ok env (ok u, st) token h = (u, refl, h)

registered-store :
    (env : AuthEnv) (out : Result UserError User × Store) → (registered env out).1 ≡ out.1
registered-store env (err e, st) = refl
registered-store env (ok u, st) = refl

pub register_user-ok :
    (env : AuthEnv) (req : RegisterRequest) (st : Store) (token : Text)
    → (register_user env req st).0 ≡ ok token
    → (hashed : Text) × IsRegistered env req st token hashed
unfolding register_user IsRegistered registered_row
register_user-ok env req st token h = elim (Result-cases (env.crypto.hash env.salt req.password)) [
  | inl (e, bad) ↦ cc (rw (bad, register_user) at h)
  | inr (hashed, made) ↦
      let out = create_user env.db_fault (new_user req hashed) st in
      let (u, stored, signed) = registered-ok env out token (rw (made, register_user) at h) in
      let (fresh, same, after) = create_user-ok env.db_fault req hashed st u stored in
      (
        hashed,
        (
          made,
          fresh,
          rw (made, register_user, registered-store env out, after, same) refl,
          subst (λ (w : User). generate_token env w ≡ ok token) same signed,
        ),
      )
]

-- Who has registered can log in with the email and the password, and the token of the login is read,
-- until it expires, as that of the new row, a client.
pub register_user-login :
    (env : AuthEnv) (req : RegisterRequest) (st : Store) (token : Text) (later now : Time)
    → IsCrypto env.crypto
    → (register_user env req st).0 ≡ ok token
    → now.instant < (token_claims later (new_user req [])).expires_at * second
    → let there : AuthEnv = record env { now = later; db_fault = none } in
      let login : LoginRequest = record { email = req.email; password = req.password } in
      (login_token : Text) × (login_user there login (register_user env req st).1 ≡ ok login_token)
      × (claims : Claims) × (parse_token (record there { now = now }) login_token ≡ ok claims)
      × (claims.user_id ≡ st.next_id)
      × (claims.role ≡ client)
unfolding IsRegistered registered_row IsLoggedIn generate_token token_claims
register_user-login env req st token later now laws h early =
    let (hashed, whole) = register_user-ok env req st token h in
    let (made, fresh, after, signed) = whole in
    let u = registered_row req hashed st.next_id in
    let there : AuthEnv = record env { now = later; db_fault = none } in
    let login : LoginRequest = record { email = req.email; password = req.password } in
    let (login_token, new) = laws.signs env.jwt_secret (token_claims later u) in
    let found : first_by_email req.email (register_user env req st).1.users ≡ ok u =
      rw after (first_by_email-append u st.users (All-map _ _ st.users (λ v d. d.1) fresh) refl) in
    let accepted = laws.compare_hash env.salt req.password hashed made in
    (
      login_token,
      (login_user_iff there login (register_user env req st).1 login_token refl).1
          (u, found, refl, refl, accepted, new),
      token_claims later u,
      parse_token-generate there u login_token now laws new early,
      refl,
      refl,
    )
