-- ===== src/User/Accounts.antt =====
-- internal/services/user_service.go. A method that reads a row and saves it has two stores, the one
-- that it reads and the one that it writes: other requests may come in between.
pub mod Effects
pub mod Roles
use booking_venue.Base.{ℕ, Bool, not, Option, none, some, [], Result, ok, err, ◌>>=◌, ◌>>◌, fail_if}
use booking_venue.Clock.HourMinute.{Text}
use booking_venue.User.Model.{
  owner, is_client, User, UpdateUserRequest, UserResponse, UserError, only_client,
}
use booking_venue.User.Repo.{Store, get_by_id, update_user}

pub record AccountEnv : Type 0 where
  pub read_fault : Option UserError
  pub write_fault : Option UserError

-- GetMe
unfoldable pub get_me : AccountEnv → ℕ → Store → Result UserError User
get_me env k st = get_by_id env.read_fault k st

-- The saved row is returned with the store after the save.
abbrev pub saved : AccountEnv → User → Store → Result UserError (User × Store)
saved env u st = update_user env.write_fault u st >>= λ st'. ok (u, st')

abbrev pub or_else : Option Text → Text → Text
or_else none s = s
or_else (some t) s = t

-- The row with the fields of the request that are given; `role` is not read.
unfoldable pub apply_update : UpdateUserRequest → User → User
apply_update req u = record u {
  full_name = or_else req.full_name u.full_name;
  email = or_else req.email u.email;
}

-- UpdateMe
unfoldable pub update_me :
    AccountEnv → ℕ → UpdateUserRequest → Store → Store → Result UserError (User × Store)
unfolding apply_update
update_me env k req read st = do
  u ← get_by_id env.read_fault k read
  saved env (apply_update req u) st

-- BecomeOwner
unfoldable pub become_owner : AccountEnv → ℕ → Store → Store → Result UserError (User × Store)
become_owner env k read st = do
  u ← get_by_id env.read_fault k read
  fail_if (not (is_client u.role)) only_client
  saved env (record u { role = owner }) st

-- GetPublicProfile
unfoldable pub get_public_profile : AccountEnv → ℕ → Store → Result UserError UserResponse
get_public_profile env k st = do
  u ← get_by_id env.read_fault k st
  ok (record { id = u.id; full_name = u.full_name; email = []; role = u.role })
