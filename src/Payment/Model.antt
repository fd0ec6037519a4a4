-- ===== src/Payment/Model.antt =====
-- The data of the payment service: internal/models, internal/dto and the errors of its layers.
use booking_venue.Base.{ℕ, ℤ, Bool, true, false, Option}
use booking_venue.Clock.{Time}
use booking_venue.Clock.HourMinute.{Text}

-- `other` is any text that is none of the constants.
pub data PaymentStatus : Type 0 where
  pending completed refunded failed : PaymentStatus
  other : Text → PaymentStatus

abbrev pub is_completed : PaymentStatus → Bool
is_completed completed = true
is_completed _ = false

pub data PaymentMethod : Type 0 where
  card cash : PaymentMethod
  unknown : Text → PaymentMethod

-- IsValidPaymentMethod: whether the map `AllowedPaymentMethods` has the key.
unfoldable pub is_valid_payment_method : PaymentMethod → Bool
is_valid_payment_method card = true
is_valid_payment_method cash = true
is_valid_payment_method (unknown _) = false

-- `deleted` is whether the `DeletedAt` of `gorm.Model` is set. Amounts are `int64`.
pub record Payment : Type 0 where
  pub id : ℕ
  pub created_at : Time
  pub updated_at : Time
  pub deleted : Bool
  pub booking_id : ℕ
  pub user_id : ℕ
  pub amount : ℤ
  pub currency : Text
  pub method : PaymentMethod
  pub status : PaymentStatus
  pub refunded_amount : ℤ
  pub paid_at : Option Time
  pub refunded_at : Option Time

pub data RefundStatus : Type 0 where
  refund_pending refund_completed refund_failed : RefundStatus
  refund_other : Text → RefundStatus

pub record Refund : Type 0 where
  pub id : ℕ
  pub created_at : Time
  pub updated_at : Time
  pub deleted : Bool
  pub payment_id : ℕ
  pub amount : ℤ
  pub reason : Text
  pub status : RefundStatus

pub record CreatePaymentRequest : Type 0 where
  pub booking_id : ℕ
  pub user_id : ℕ
  pub amount : ℤ
  pub currency : Text
  pub method : PaymentMethod

pub record RefundRequest : Type 0 where
  pub amount : ℤ
  pub reason : Text

-- `err_not_found` is the repository's ErrNotFound, wrapped; `record_not_found` is gorm's own error.
pub data PaymentError : Type 0 where
  err_not_found record_not_found database_error : PaymentError
  err_empty_request err_invalid_amount err_invalid_method : PaymentError
  err_payment_not_complete err_refund_amount_exceed : PaymentError
