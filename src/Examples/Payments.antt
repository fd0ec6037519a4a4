-- ===== src/Examples/Payments.antt =====
-- A booking with a payment of 500 roubles, paid, pending or cancelled.
use booking_venue.Base.{ℕ, ◌*◌, ◌≡◌, refl, false, none, some, [], ◌∷◌, ok, err, arith, pos}
use booking_venue.Clock.{Time, utc, day_length}
use booking_venue.Float64.{thousandths}
use booking_venue.Payment.Model.{
  Payment, completed, refunded, card, CreatePaymentRequest, RefundRequest, record_not_found,
  database_error,
}
use booking_venue.Payment.Repo.{Store, first_by_id, first_by_booking}
use booking_venue.Payment.Service.{PaymentEnv, rub, create_completed_payment}
use booking_venue.Payment.Refunds.{RefundEnv, refund_payment}
use booking_venue.Payment.Consumer.{
  BookingCreatedEvent, BookingCancelledEvent, handle_created, handle_cancelled,
}
use booking_venue.Payment.Consumer.Delivery.{IsUsable, handle_created-again}
use booking_venue.Payment.Consumer.PaidLater.{paid_booking-not_refunded}
use booking_venue.Payment.Consumer.Cancelling.{IsFaultless, handle_cancelled-refunds}
use booking_venue.Payment.Balance.{IsBalanced, IsSound}
use booking_venue.Payment.History.{History, start, next, refund, History-IsSound}

abbrev now : Time
now = record { instant = 700_000 * day_length; location = utc }

abbrev pub pay_env : PaymentEnv
pay_env = record { now = now; db_now = now; create_fault = none }

abbrev pub refund_env : RefundEnv
refund_env = record {
  now = now;
  db_now = now;
  begin_fault = none;
  read_fault = none;
  create_fault = none;
  update_fault = none;
  commit_fault = none;
}

abbrev pub paid : Payment
paid = record {
  id = 1;
  created_at = now;
  updated_at = now;
  deleted = false;
  booking_id = 5;
  user_id = 7;
  amount = pos 500;
  currency = rub;
  method = card;
  status = completed;
  refunded_amount = pos 0;
  paid_at = some now;
  refunded_at = none;
}

abbrev pub no_payments : Store
no_payments = record { payments = []; next_payment_id = 1; refunds = []; next_refund_id = 1 }

abbrev pub one_payment : Store
one_payment = record { payments = paid ∷ []; next_payment_id = 2; refunds = []; next_refund_id = 1 }

abbrev pub created_event : BookingCreatedEvent ℕ
created_event = record { booking_id = 5; client_id = 7; price = 500_000 }

abbrev cancelled_event : BookingCancelledEvent
cancelled_event = record { booking_id = 5 }

abbrev pay_request : CreatePaymentRequest
pay_request = record { booking_id = 5; user_id = 7; amount = pos 500; currency = []; method = card }

abbrev pub refund_request : RefundRequest
refund_request = record { amount = pos 200; reason = rub }

paid-IsBalanced : IsBalanced [] paid
paid-IsBalanced = record {
  positive = ground arith;
  fits = ground arith;
  not_negative = ground arith;
  covered = ground arith;
  exact = refl;
  open_rest = λ _ h. ground (arith, h);
  no_rest = λ h. cc h;
}

one-IsSound : IsSound one_payment
one-IsSound = record { keys = (ground arith, tt, tt); known = tt; balanced = (paid-IsBalanced, tt) }

pub usable : IsUsable thousandths created_event
usable = record { has_booking = ground arith; has_client = ground arith; has_price = ground arith }

not_paid : first_by_booking 5 no_payments.payments ≡ err record_not_found
unfolding first_by_booking
not_paid = refl

first_paid : first_by_booking 5 one_payment.payments ≡ ok paid
unfolding first_by_booking
first_paid = refl

handle_created-again_example :
    handle_created thousandths pay_env
      (some database_error)
      created_event
      (handle_created thousandths pay_env none created_event no_payments)
    ≡ handle_created thousandths pay_env none created_event no_payments
handle_created-again_example =
    handle_created-again thousandths pay_env pay_env (some database_error) created_event no_payments
      refl (λ e. cc e) (λ e. cc e)

paid_booking-not_refunded_example :
    let paid_store =
      (create_completed_payment pay_env
        (some pay_request)
        (handle_created thousandths pay_env none created_event no_payments)).1 in
    handle_cancelled refund_env none cancelled_event paid_store ≡ paid_store
paid_booking-not_refunded_example =
    paid_booking-not_refunded thousandths pay_env created_event pay_env pay_request refund_env none
      cancelled_event no_payments record_not_found usable refl not_paid refl

faultless : IsFaultless refund_env
faultless = record { begins = refl; reads = refl; creates = refl; updates = refl; commits = refl }

handle_cancelled-refunds_example :
    let st' = handle_cancelled refund_env none cancelled_event one_payment in
    (p' : Payment) × (first_by_id 1 st'.payments ≡ ok p')
    × (p'.status ≡ refunded)
    × (p'.refunded_amount ≡ pos 500)
    × (handle_cancelled refund_env none cancelled_event st' ≡ st')
handle_cancelled-refunds_example =
    handle_cancelled-refunds refund_env refund_env none cancelled_event one_payment paid
      (ground arith) faultless one-IsSound first_paid refl

refund-History :
    History thousandths one_payment
      (refund_payment refund_env 1 (some refund_request) one_payment).1
refund-History = next start (refund refund_env 1 refund_request (ground arith) refl)

History-IsSound_example : IsSound (refund_payment refund_env 1 (some refund_request) one_payment).1
History-IsSound_example = History-IsSound thousandths (λ x. omega arith) refund-History one-IsSound
