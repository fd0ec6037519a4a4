-- ===== src/User/Repo.antt =====
-- internal/repository/user_repository.go and the table `users`. Each call may also fail with the error
-- that it is given.
pub mod Rows
use booking_venue.Base.{
  ℕ, ◌+◌, Bool, true, false, not, ◌&&◌, ◌||◌, Option, List, [], ◌∷◌, ◌++◌, ◌==◌, if◌then◌else◌,
  Result, ok, err, ◌>>=◌, ◌>>◌, check, fail_if,
}
use booking_venue.Clock.HourMinute.{Text}
use booking_venue.Strings.{same_text}
use booking_venue.User.Model.{Role, User, UserError, record_not_found, duplicated_key}

-- The rows in the order of the primary key, and the value of its sequence.
pub record Store : Type 0 where
  pub users : List User
  pub next_id : ℕ

unfoldable pub has_id : ℕ → List User → Bool
has_id k [] = false
has_id k (u ∷ us) = u.id == k || has_id k us

-- Whether a row, a deleted one included, has the email: what the unique index knows.
unfoldable pub has_email : Text → List User → Bool
has_email e [] = false
has_email e (u ∷ us) = same_text u.email e || has_email e us

-- The same for the rows but that of an id.
unfoldable pub others_have_email : ℕ → Text → List User → Bool
others_have_email k e [] = false
others_have_email k e (u ∷ us) = not (u.id == k) && same_text u.email e || others_have_email k e us

-- Create: the row gets an id of the sequence unless it has one. The constraints are checked after the
-- sequence has moved.
unfoldable pub create_user : Option UserError → User → Store → Result UserError User × Store
unfolding has_id has_email
create_user fault u st = elim (check fault) [
  | err e ↦ (err e, st)
  | ok _ ↦
      let u' : User = record u { id = if u.id == 0 then st.next_id else u.id; deleted = false } in
      let next_id = if u.id == 0 then st.next_id + 1 else st.next_id in
      if has_id u'.id st.users || has_email u.email st.users
      then (err duplicated_key, record st { next_id = next_id })
      else (ok u', record { users = st.users ++ u' ∷ []; next_id = next_id })
]

unfoldable pub first_by_id : ℕ → List User → Result UserError User
first_by_id k [] = err record_not_found
first_by_id k (u ∷ us) = if u.id == k && not u.deleted then ok u else first_by_id k us

-- GetByID
unfoldable pub get_by_id : Option UserError → ℕ → Store → Result UserError User
get_by_id fault k st = check fault >> first_by_id k st.users

unfoldable pub first_by_email : Text → List User → Result UserError User
first_by_email e [] = err record_not_found
first_by_email e (u ∷ us) =
    if same_text u.email e && not u.deleted then ok u else first_by_email e us

-- GetByEmail
unfoldable pub get_by_email : Option UserError → Text → Store → Result UserError User
get_by_email fault e st = check fault >> first_by_email e st.users

-- `UPDATE users SET ... WHERE id = ? AND deleted_at IS NULL`, with what it does to one row.
unfoldable pub update_rows : (User → User) → ℕ → List User → List User
update_rows f k [] = []
update_rows f k (u ∷ us) =
    if u.id == k && not u.deleted then f u ∷ update_rows f k us else u ∷ update_rows f k us

-- Delete: a row is only marked, and no row to mark is no error.
unfoldable pub delete_user : Option UserError → ℕ → Store → Result UserError Store
unfolding update_rows
delete_user fault k st =
    check fault
    >> ok (record st { users = update_rows (λ u. record u { deleted = true }) k st.users })

-- Where no live row has the id, `Save` inserts the row, or overwrites the deleted one.
unfoldable pub put_user : User → List User → List User
put_user u [] = u ∷ []
put_user u (v ∷ vs) = if v.id == u.id then u ∷ vs else v ∷ put_user u vs

-- Update: `Save` of all columns.
unfoldable pub update_user : Option UserError → User → Store → Result UserError Store
unfolding put_user others_have_email
update_user fault u st = do
  check fault
  fail_if (others_have_email u.id u.email st.users) duplicated_key
  ok (record st { users = put_user u st.users })

-- UpdateRole
unfoldable pub update_role : Option UserError → ℕ → Role → Store → Result UserError Store
unfolding update_rows
update_role fault k role st =
    check fault >> ok (record st { users = update_rows (λ u. record u { role = role }) k st.users })
