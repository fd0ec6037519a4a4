-- ===== src/Payment/Service.antt =====
-- internal/services/payment-service.go.
use booking_venue.Base.{
  pos, leb_ℤ, Bool, true, false, not, Option, none, some, [], ◌∷◌, if◌then◌else◌, Result, ok, err,
  ◌>>◌, check, fail_if,
}
use booking_venue.Clock.{Time, zero_instant, utc}
use booking_venue.Clock.HourMinute.{Text}
use booking_venue.Payment.Model.{
  PaymentStatus, completed, pending, is_valid_payment_method, Payment, CreatePaymentRequest,
  PaymentError, err_empty_request, err_invalid_amount, err_invalid_method,
}
use booking_venue.Payment.Repo.{Store, create_payment}

-- The clock as the service reads it, the clock of gorm, and the fault of the insert.
pub record PaymentEnv : Type 0 where
  pub now : Time
  pub db_now : Time
  pub create_fault : Option PaymentError

abbrev pub rub : Text
rub = b'R' ∷ b'U' ∷ b'B' ∷ []

-- `if req.Currency == "" { req.Currency = "RUB" }`
abbrev pub currency_of : Text → Text
currency_of [] = rub
currency_of (c ∷ cs) = c ∷ cs

abbrev pub zero_time : Time
zero_time = record { instant = zero_instant; location = utc }

-- The checks of a request that is not nil.
unfoldable pub check_payment : CreatePaymentRequest → Result PaymentError (Unit {0})
check_payment req = do
  fail_if (leb_ℤ req.amount (pos 0)) err_invalid_amount
  fail_if (not (is_valid_payment_method req.method)) err_invalid_method

-- The row as the service builds it; the insert sets the id and the times.
unfoldable pub new_payment : CreatePaymentRequest → PaymentStatus → Option Time → Payment
new_payment req status paid_at = record {
  id = 0;
  created_at = zero_time;
  updated_at = zero_time;
  deleted = false;
  booking_id = req.booking_id;
  user_id = req.user_id;
  amount = req.amount;
  currency = currency_of req.currency;
  method = req.method;
  status = status;
  refunded_amount = pos 0;
  paid_at = paid_at;
  refunded_at = none;
}

-- `createPayment`; a nil request is `none`.
unfoldable pub make_payment :
    PaymentEnv
    → Option CreatePaymentRequest
    → PaymentStatus
    → Bool
    → Store
    → Result PaymentError Payment × Store
make_payment env none status set_paid_at st = (err err_empty_request, st)
make_payment env (some req) status set_paid_at st =
    elim (check_payment req >> check env.create_fault) [
      | err e ↦ (err e, st)
      | ok _ ↦
          let p = new_payment req status (if set_paid_at then some env.now else none) in
          (ok (create_payment env.db_now p st).0, (create_payment env.db_now p st).1)
    ]

-- CreatePayment
unfoldable pub create_completed_payment :
    PaymentEnv → Option CreatePaymentRequest → Store → Result PaymentError Payment × Store
create_completed_payment env req st = make_payment env req completed true st

unfoldable pub create_pending_payment :
    PaymentEnv → Option CreatePaymentRequest → Store → Result PaymentError Payment × Store
create_pending_payment env req st = make_payment env req pending false st
