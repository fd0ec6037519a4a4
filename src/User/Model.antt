-- ===== src/User/Model.antt =====
-- internal/models and internal/dto of the user service, and its errors.
use booking_venue.Base.{ℕ, Bool, true, false, Option}
use booking_venue.Clock.HourMinute.{Text}

pub data Role : Type 0 where
  owner client admin : Role

abbrev pub is_client : Role → Bool
is_client client = true
is_client _ = false

-- A row of `users`; `deleted` is a `DeletedAt` that is not null. `password` is the hash.
pub record User : Type 0 where
  pub id : ℕ
  pub deleted : Bool
  pub full_name : Text
  pub email : Text
  pub password : Text
  pub role : Role

pub record RegisterRequest : Type 0 where
  pub full_name : Text
  pub email : Text
  pub password : Text

pub record LoginRequest : Type 0 where
  pub email : Text
  pub password : Text

-- `expires_at` is the NumericDate of the registered claims.
pub record Claims : Type 0 where
  pub user_id : ℕ
  pub role : Role
  pub expires_at : ℕ

-- `none` is a nil pointer.
pub record UpdateUserRequest : Type 0 where
  pub full_name : Option Text
  pub email : Option Text
  pub role : Option Role

pub record UserResponse : Type 0 where
  pub id : ℕ
  pub full_name : Text
  pub email : Text
  pub role : Role

-- `only_client` is the error of BecomeOwner for another role. The others are named for where they come
-- from.
pub data UserError : Type 0 where
  record_not_found duplicated_key database_error : UserError
  hash_failed sign_failed : UserError
  invalid_credentials invalid_token only_client : UserError
