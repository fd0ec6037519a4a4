-- ===== src/User/History.antt =====
-- The table of users over requests whose reads and writes interleave.
use booking_venue.Base.{
  not, fail_if, ℕ, ◌≡◌, ◌≢◌, refl, Option, none, some, Result, ok, err, List, [], ◌∷◌, All,
  All-append, Result-cases, Option-cases, inl, inr, >>=-eq-ok,
}
use booking_venue.Clock.HourMinute.{Text}
use booking_venue.User.Model.{
  owner, admin, is_client, User, RegisterRequest, UpdateUserRequest, UserError, only_client,
}
use booking_venue.User.Repo.{Store, create_user, get_by_id}
use booking_venue.User.Repo.Rows.{
  HasKeys, create_user-err, append-HasKeys, put_user-HasKeys, put_user-All, first_by_id-All,
  others_have_email-All,
}
use booking_venue.User.Auth.{AuthEnv, new_user, registered, register_user}
use booking_venue.User.Auth.Login.{registered_row, create_user-ok}
use booking_venue.User.Accounts.{AccountEnv, saved, apply_update, update_me, become_owner}
use booking_venue.User.Accounts.Effects.{get_by_id-ok, saved-ok}
use booking_venue.User.Transport.{
  ContextValue, Request, get_claims, registered_reply, handle_register, handle_update_me,
  handle_become_owner, serve, register_request, login_request, me_request, become_owner_request,
  update_me_request, profile_request,
}

-- Distinct keys and emails, and no administrator.
abbrev pub IsSound : List User → Type 0
IsSound us = HasKeys us × All (λ u. u.role ≢ admin) us

-- A saved row of a role that is not the administrator's keeps the table sound.
saved-IsSound :
    (env : AccountEnv) (u v : User) (st st' : Store)
    → saved env u st ≡ ok (v, st')
    → u.role ≢ admin
    → IsSound st.users
    → IsSound st'.users
saved-IsSound env u v st st' h plain s =
    let (same, free, after) = saved-ok env u v st st' h in
    let others = others_have_email-All u.id u.email st.users free in
    rw after (
      put_user-HasKeys u st.users others s.0,
      put_user-All (λ w. w.role ≢ admin) u st.users s.1 plain,
    )

update_me-IsSound :
    (env : AccountEnv) (k : ℕ) (req : UpdateUserRequest) (read st : Store) (v : User) (st' : Store)
    → update_me env k req read st ≡ ok (v, st')
    → IsSound read.users
    → IsSound st.users
    → IsSound st'.users
unfolding update_me apply_update
update_me-IsSound env k req read st v st' h r s =
    let (row, found, h₁) = >>=-eq-ok (get_by_id env.read_fault k read) _ h in
    let there = get_by_id-ok env.read_fault k read row found in
    let plain = first_by_id-All (λ w. w.role ≢ admin) k read.users row r.1 there in
    saved-IsSound env (apply_update req row) v st st' h₁ plain s

become_owner-IsSound :
    (env : AccountEnv) (k : ℕ) (read st : Store) (v : User) (st' : Store)
    → become_owner env k read st ≡ ok (v, st')
    → IsSound st.users
    → IsSound st'.users
unfolding become_owner
become_owner-IsSound env k read st v st' h s =
    let (row, found, h₁) = >>=-eq-ok (get_by_id env.read_fault k read) _ h in
    let (t, allowed, h₂) = >>=-eq-ok (fail_if (not (is_client row.role)) only_client) _ h₁ in
    saved-IsSound env (record row { role = owner }) v st st' h₂ (λ e. cc) s

create_user-IsSound :
    (fault : Option UserError) (req : RegisterRequest) (hashed : Text) (st : Store)
    → IsSound st.users
    → IsSound (create_user fault (new_user req hashed) st).1.users
unfolding registered_row new_user
create_user-IsSound fault req hashed st s =
    elim (Result-cases (create_user fault (new_user req hashed) st).0) [
      | inl (e, bad) ↦ rw (create_user-err fault (new_user req hashed) st e bad) s
      | inr (u, stored) ↦
          let (fresh, same, after) = create_user-ok fault req hashed st u stored in
          let row = registered_row req hashed st.next_id in
          rw (after, same)
            (
              append-HasKeys row st.users fresh s.0,
              All-append (λ w. w.role ≢ admin) st.users (row ∷ []) s.1 (λ e. cc, tt),
            )
    ]

registered-users :
    (env : AuthEnv) (out : Result UserError User × Store)
    → (registered_reply (registered env out)).1 ≡ out.1
registered-users env (err e, st) = refl
registered-users env (ok u, st) = refl

register-IsSound :
    (env : AuthEnv) (b : Option RegisterRequest) (st : Store)
    → IsSound st.users
    → IsSound (handle_register env b st).1.users
unfolding handle_register register_user
register-IsSound env none st s = s
register-IsSound env (some req) st s = elim (Result-cases (env.crypto.hash env.salt req.password)) [
  | inl (e, bad) ↦ rw (bad, register_user) s
  | inr (hashed, made) ↦
      let out = create_user env.db_fault (new_user req hashed) st in
      rw (made, register_user, registered-users env out)
        (create_user-IsSound env.db_fault req hashed st s)
]

module _ (env : AccountEnv) (context : Option ContextValue) (read st : Store) where
  update-IsSound :
      (b : Option UpdateUserRequest)
      → IsSound read.users
      → IsSound st.users
      → IsSound (handle_update_me env context b read st).1.users
  unfolding handle_update_me
  update-IsSound b r s = elim (Result-cases (get_claims context)) [
    | inl (e, bad) ↦ rw (bad, handle_update_me) s
    | inr (claims, known) ↦ elim (Option-cases b) [
      | inl bad ↦ rw (known, bad, handle_update_me) s
      | inr (req, given) ↦ elim (Result-cases (update_me env claims.user_id req read st)) [
        | inl (e, bad) ↦ rw (known, given, bad, handle_update_me) s
        | inr (out, done) ↦
            rw (known, given, done, handle_update_me)
              (update_me-IsSound env claims.user_id req read st out.0 out.1 done r s)
      ]
    ]
  ]

  owner-IsSound : IsSound st.users → IsSound (handle_become_owner env context read st).1.users
  unfolding handle_become_owner
  owner-IsSound s = elim (Result-cases (get_claims context)) [
    | inl (e, bad) ↦ rw (bad, handle_become_owner) s
    | inr (claims, known) ↦ elim (Result-cases (become_owner env claims.user_id read st)) [
      | inl (e, bad) ↦ rw (known, bad, handle_become_owner) s
      | inr (out, done) ↦
          rw (known, done, handle_become_owner)
            (become_owner-IsSound env claims.user_id read st out.0 out.1 done s)
    ]
  ]

  serve-IsSound :
      (auth : AuthEnv) (req : Request)
      → IsSound read.users
      → IsSound st.users
      → IsSound (serve auth env context req read st).1.users
  unfolding serve
  serve-IsSound auth (register_request b) r s = register-IsSound auth b st s
  serve-IsSound auth (login_request b) r s = s
  serve-IsSound auth me_request r s = s
  serve-IsSound auth become_owner_request r s = owner-IsSound s
  serve-IsSound auth (update_me_request b) r s = update-IsSound b r s
  serve-IsSound auth (profile_request id) r s = s

-- The stores that requests can reach, where a request reads any store that was reached before, not
-- only the one that it writes: every interleaving of reads and writes is such a sequence.
pub data Reached (first : Store) : Store → Type 0 where
  start : Reached first first
  next :
      {read st : Store} (auth : AuthEnv) (env : AccountEnv) (context : Option ContextValue)
      (req : Request)
      → Reached first read
      → Reached first st
      → Reached first (serve auth env context req read st).1

-- From a table of distinct ids and emails without administrators, requests reach only such tables,
-- however their reads and writes interleave: no request makes an administrator.
pub Reached-IsSound : {first st : Store} → Reached first st → IsSound first.users → IsSound st.users
Reached-IsSound start s = s
Reached-IsSound (next {read} {st} auth env context req r h) s =
    serve-IsSound env context read st auth req (Reached-IsSound r s) (Reached-IsSound h s)
