-- ===== src/User/Accounts/Effects.antt =====
-- What the methods of user_service.go do to the table of users.
use booking_venue.Base.{
  ℕ, ◌≡◌, ◌≢◌, refl, sym, ap, ◌∙◌, inl, inr, false, not, ◌&&◌, ◌==◌, Option, none, some, Result, ok,
  err, ◌>>=◌, fail_if, List, [], ◌∷◌, map, Bool-cases, Option-cases, >>=-eq-ok, subst,
}
use booking_venue.Clock.HourMinute.{Text}
use booking_venue.User.Model.{
  Role, owner, client, admin, is_client, User, UpdateUserRequest, UserResponse, UserError,
}
use booking_venue.User.Repo.{
  Store, first_by_id, get_by_id, others_have_email, put_user, update_user,
}
use booking_venue.User.Repo.Rows.{first_by_id-id, first_by_id-put_self, first_by_id-put_ne}
use booking_venue.User.Accounts.{
  AccountEnv, saved, apply_update, update_me, become_owner, get_public_profile,
}

pub get_by_id-ok :
    (fault : Option UserError) (k : ℕ) (st : Store) (u : User)
    → get_by_id fault k st ≡ ok u
    → first_by_id k st.users ≡ ok u
unfolding get_by_id
get_by_id-ok none k st u h = h
get_by_id-ok (some e) k st u h = cc h

-- A save that succeeds has met no other row with the email.
pub update_user-ok :
    (fault : Option UserError) (u : User) (st st' : Store)
    → update_user fault u st ≡ ok st'
    → (others_have_email u.id u.email st.users ≡ false)
      × (st' ≡ record st { users = put_user u st.users })
unfolding update_user
update_user-ok (some e) u st st' h = cc h
update_user-ok none u st st' h = elim (Bool-cases (others_have_email u.id u.email st.users)) [
  | inl taken ↦ cc (rw taken at h)
  | inr free ↦ (free, sym (cc (rw free at h)))
]

-- The row `u` is saved: it is what its id finds, and every other id finds what it found before.
unfoldable pub IsSaved : User → Store → Store → Type 0
IsSaved u st st' =
    (first_by_id u.id st'.users ≡ ok u)
    × ((j : ℕ) → j ≢ u.id → first_by_id j st'.users ≡ first_by_id j st.users)

pub saved-ok :
    (env : AccountEnv) (u v : User) (st st' : Store)
    → saved env u st ≡ ok (v, st')
    → (v ≡ u)
      × (others_have_email u.id u.email st.users ≡ false)
      × (st' ≡ record st { users = put_user u st.users })
saved-ok env u v st st' h =
    let (s, written, out) = >>=-eq-ok (update_user env.write_fault u st) _ h in
    let (free, after) = update_user-ok env.write_fault u st s written in
    (sym (ap first out), free, sym (ap second out) ∙ after)
  where
    first : Result UserError (User × Store) → User
    first (ok (w, s)) = w
    first (err e) = v

    second : Result UserError (User × Store) → Store
    second (ok (w, s)) = s
    second (err e) = st'

pub put-IsSaved :
    (u : User) (st st' : Store)
    → u.deleted ≡ false
    → st' ≡ record st { users = put_user u st.users }
    → IsSaved u st st'
unfolding IsSaved
put-IsSaved u st st' live after =
    rw after (first_by_id-put_self u st.users live, λ j ne. first_by_id-put_ne j u st.users ne)

-- A successful UpdateMe saves the row that it has read with the two fields of the request that are
-- given: neither the role nor the password of the request's user comes from the request.
pub update_me-ok :
    (env : AccountEnv) (k : ℕ) (req : UpdateUserRequest) (read st : Store) (u : User) (st' : Store)
    → update_me env k req read st ≡ ok (u, st')
    → (row : User) × (first_by_id k read.users ≡ ok row)
      × (u ≡ apply_update req row)
      × (u.role ≡ row.role)
      × IsSaved u st st'
unfolding update_me apply_update
update_me-ok env k req read st u st' h =
    let (row, found, h₁) = >>=-eq-ok (get_by_id env.read_fault k read) _ h in
    let there = get_by_id-ok env.read_fault k read row found in
    let (same, free, after) = saved-ok env (apply_update req row) u st st' h₁ in
    let live = (first_by_id-id k read.users row there).1 in
    (
      row,
      there,
      same,
      ap (λ (w : User). w.role) same,
      subst (λ (w : User). IsSaved w st st') (sym same)
          (put-IsSaved (apply_update req row) st st' live after),
    )

-- A successful BecomeOwner has read a client, and saves it as an owner.
pub become_owner-ok :
    (env : AccountEnv) (k : ℕ) (read st : Store) (u : User) (st' : Store)
    → become_owner env k read st ≡ ok (u, st')
    → (row : User) × (first_by_id k read.users ≡ ok row)
      × (row.role ≡ client)
      × (u ≡ record row { role = owner })
      × IsSaved u st st'
unfolding become_owner
become_owner-ok env k read st u st' h =
    let (row, found, h₁) = >>=-eq-ok (get_by_id env.read_fault k read) _ h in
    let there = get_by_id-ok env.read_fault k read row found in
    let (t, allowed, h₂) = >>=-eq-ok (fail_if (not (is_client row.role)) _) _ h₁ in
    let (same, free, after) = saved-ok env (record row { role = owner }) u st st' h₂ in
    let live = (first_by_id-id k read.users row there).1 in
    (
      row,
      there,
      was_client row.role _ t allowed,
      same,
      subst (λ (w : User). IsSaved w st st') (sym same)
          (put-IsSaved (record row { role = owner }) st st' live after),
    )
  where
    was_client :
        (r : Role) (e : UserError) (t : Unit {0})
        → fail_if (not (is_client r)) e ≡ ok t
        → r ≡ client
    was_client client e t p = refl
    was_client owner e t p = cc p
    was_client admin e t p = cc p

abbrev pub hide : (ℕ → Text) → (ℕ → Text) → User → User
hide emails passwords u = record u { email = emails u.id; password = passwords u.id }

-- The public profile shows the id, the name and the role: it is the same whatever the emails and the
-- passwords of the table are.
pub get_public_profile-hides :
    (env : AccountEnv) (k : ℕ) (st : Store) (emails passwords : ℕ → Text)
    → get_public_profile env k (record st { users = map (hide emails passwords) st.users })
      ≡ get_public_profile env k st
unfolding get_public_profile get_by_id first_by_id
get_public_profile-hides env k st emails passwords = elim (Option-cases env.read_fault) [
  | inl free ↦ rw free (rows st.users)
  | inr (e, broken) ↦ rw broken refl
]
  where
    show : Result UserError User → Result UserError UserResponse
    show r =
        r >>= λ u. ok (record { id = u.id; full_name = u.full_name; email = []; role = u.role })

    rows :
        (us : List User)
        → show (first_by_id k (map (hide emails passwords) us)) ≡ show (first_by_id k us)
    rows [] = refl
    rows (u ∷ us) = elim (Bool-cases (u.id == k && not u.deleted)) [
      | inl here ↦ rw here refl
      | inr there ↦ rw there (rows us)
    ]
