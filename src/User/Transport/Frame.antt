-- ===== src/User/Transport/Frame.antt =====
-- What the routes answer, and what they leave on an error.
use booking_venue.Base.{
  ◌≤◌, ◌≡◌, refl, inl, inr, Option, none, some, Result, ok, err, arith, Result-cases,
}
use booking_venue.User.Model.{User, RegisterRequest, UpdateUserRequest, UserError}
use booking_venue.User.Repo.{Store, create_user}
use booking_venue.User.Repo.Rows.{create_user-err}
use booking_venue.User.Auth.{
  AuthEnv, new_user, token_claims, generate_token, registered, register_user,
}
use booking_venue.User.Auth.Login.{IsCrypto}
use booking_venue.User.Accounts.{AccountEnv}
use booking_venue.User.Transport.{
  unauthorized, handle_get_me, get_claims, ContextValue, Response, Request, refused,
  registered_reply, handle_register, handle_update_me, handle_become_owner, serve, app,
  register_request, login_request, me_request, become_owner_request, update_me_request,
  profile_request,
}

-- An error response, or the rows that the request has left.
abbrev KeepsOnError : Store → Response × Store → Type 0
KeepsOnError st out = 400 ≤ out.0.code → out.1.users ≡ st.users

registered-keeps :
    (env : AuthEnv) (out : Result UserError User × Store) (st : Store)
    → IsCrypto env.crypto
    → ((e : UserError) → out.0 ≡ err e → out.1.users ≡ st.users)
    → KeepsOnError st (registered_reply (registered env out))
unfolding generate_token
registered-keeps env (err e, st') st laws h code = h e refl
registered-keeps env (ok u, st') st laws h code =
    let (token, signed) = laws.signs env.jwt_secret (token_claims env.now u) in
    let success = rw signed at code in ground arith

register-keeps :
    (env : AuthEnv) (b : Option RegisterRequest) (st : Store)
    → IsCrypto env.crypto
    → KeepsOnError st (handle_register env b st)
unfolding handle_register register_user
register-keeps env none st laws = λ code. refl
register-keeps env (some req) st laws =
    elim (Result-cases (env.crypto.hash env.salt req.password)) [
      | inl (e, bad) ↦ rw (bad, register_user) (λ code. refl)
      | inr (hashed, made) ↦
          let out = create_user env.db_fault (new_user req hashed) st in
          rw (made, register_user)
            (registered-keeps env out st laws
              (create_user-err env.db_fault (new_user req hashed) st))
    ]

-- A response with an error status leaves the rows of the table of users as they were, on all six
-- routes and whatever the context of the request holds.
pub serve-keeps_users_on_error :
    (auth : AuthEnv) (env : AccountEnv) (context : Option ContextValue) (req : Request)
    (read st : Store)
    → IsCrypto auth.crypto
    → 400 ≤ (serve auth env context req read st).0.code
    → (serve auth env context req read st).1.users ≡ st.users
unfolding serve handle_update_me handle_become_owner
serve-keeps_users_on_error auth env context (register_request b) read st laws h =
    register-keeps auth b st laws h
serve-keeps_users_on_error auth env context (login_request b) read st laws h = refl
serve-keeps_users_on_error auth env context me_request read st laws h = refl
serve-keeps_users_on_error auth env context become_owner_request read st laws h = ground arith
serve-keeps_users_on_error auth env context (update_me_request b) read st laws h = ground arith
serve-keeps_users_on_error auth env context (profile_request id) read st laws h = refl

-- The requests that are about the caller's own account.
pub data IsOwn : Request → Type 0 where
  reads : IsOwn me_request
  owns : IsOwn become_owner_request
  updates : (b : Option UpdateUserRequest) → IsOwn (update_me_request b)

-- In the service as `main` wires it, where no middleware has stored claims, every request about the
-- caller's own account is answered with 401 and changes nothing.
pub app-unauthorized :
    (auth : AuthEnv) (env : AccountEnv) (req : Request) (read st : Store)
    → IsOwn req
    → app auth env req read st ≡ (refused 401 unauthorized, st)
unfolding app serve handle_update_me handle_become_owner handle_get_me get_claims
app-unauthorized auth env req read st reads = refl
app-unauthorized auth env req read st owns = refl
app-unauthorized auth env req read st (updates b) = refl
