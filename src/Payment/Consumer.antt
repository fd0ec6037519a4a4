-- ===== src/Payment/Consumer.antt =====
-- internal/transport/kafka/consumer.go: the two loops that follow the topics of the reservation
-- service. What a loop logs is left out; a `continue` leaves the store as it is.
pub mod Lookup
pub mod Delivery
pub mod PaidLater
pub mod Cancelling
pub mod Loop
use booking_venue.Base.{
  ℕ, ℤ, pos, ◌-ℤ◌, wrap_int64, leb_ℤ, Bool, true, false, not, ◌||◌, Option, none, some, List, [],
  ◌∷◌, ◌==◌, leb, if◌then◌else◌, Result, ok, err,
}
use booking_venue.Clock.{Time}
use booking_venue.Clock.HourMinute.{Text}
use booking_venue.Float64.{Float64}
use booking_venue.Payment.Model.{
  card, is_completed, Payment, CreatePaymentRequest, RefundRequest, PaymentError, err_not_found,
}
use booking_venue.Payment.Repo.{Store, get_payment_by_booking_id}
use booking_venue.Payment.Service.{PaymentEnv, rub, create_pending_payment}
use booking_venue.Payment.Refunds.{RefundEnv, refund_payment}

-- The fields that the consumer reads of an event.
pub record BookingCreatedEvent (F : Type 0) : Type 0 where
  pub booking_id : ℕ
  pub client_id : ℕ
  pub price : F

pub record BookingCancelledEvent : Type 0 where
  pub booking_id : ℕ

-- What one turn of a loop gets: the context is done, the read fails, or a message comes, whose JSON
-- may be bad.
pub data Turn (E : Type 0) : Type 0 where
  stopped : Turn E
  read_failed : Turn E
  message : Option E → Turn E

abbrev pub is_not_found : PaymentError → Bool
is_not_found err_not_found = true
is_not_found _ = false

-- "отмена бронирования", in UTF-8.
abbrev pub cancel_reason : Text
cancel_reason =
    208 ∷ 190 ∷ 209 ∷ 130 ∷ 208 ∷ 188 ∷ 208 ∷ 181 ∷ 208 ∷ 189 ∷ 208 ∷ 176 ∷ 32 ∷ 208 ∷ 177 ∷ 209
    ∷ 128 ∷ 208 ∷ 190 ∷ 208 ∷ 189 ∷ 208 ∷ 184 ∷ 209 ∷ 128 ∷ 208 ∷ 190 ∷ 208 ∷ 178 ∷ 208 ∷ 176 ∷ 208
    ∷ 189 ∷ 208 ∷ 184 ∷ 209 ∷ 143 ∷ []

unfoldable pub booking_request : ℕ → ℕ → ℤ → CreatePaymentRequest
booking_request booking_id client_id amount = record {
  booking_id = booking_id;
  user_id = client_id;
  amount = amount;
  currency = rub;
  method = card;
}

-- After the lookup of an existing payment: create one only if the error is ErrNotFound.
unfoldable pub create_if_absent :
    PaymentEnv → CreatePaymentRequest → Result PaymentError Payment → Store → Store
create_if_absent env req (ok existing) st = st
create_if_absent env req (err e) st =
    if is_not_found e then (create_pending_payment env (some req) st).1 else st

module _ (float : Float64) where
  open float use {F, round}

  -- One event of booking.created.
  unfoldable pub handle_created :
      PaymentEnv → Option PaymentError → BookingCreatedEvent F → Store → Store
  unfolding booking_request
  handle_created env fault event st =
      if event.booking_id == 0 || event.client_id == 0
      then st
      else if leb_ℤ (round event.price) (pos 0)
      then st
      else create_if_absent env
          (booking_request event.booking_id event.client_id (round event.price))
          (get_payment_by_booking_id fault event.booking_id st) st

  -- The loop of consumeBookingCreated, each turn with what the world answers in it.
  unfoldable pub consume_created :
      List (Turn (BookingCreatedEvent F) × PaymentEnv × Option PaymentError) → Store → Store
  consume_created [] st = st
  consume_created ((stopped, _, _) ∷ _) st = st
  consume_created ((read_failed, _, _) ∷ ts) st = consume_created ts st
  consume_created ((message none, _, _) ∷ ts) st = consume_created ts st
  consume_created ((message (some event), env, fault) ∷ ts) st =
      consume_created ts (handle_created env fault event st)

-- The payment of a cancelled booking, once it is found.
unfoldable pub refund_rest : RefundEnv → Payment → Store → Store
refund_rest env p st =
    if not (is_completed p.status)
    then st
    else if leb_ℤ (wrap_int64 (p.amount -ℤ p.refunded_amount)) (pos 0)
    then st
    else (refund_payment env p.id
        (some
          (record { amount = wrap_int64 (p.amount -ℤ p.refunded_amount); reason = cancel_reason }))
        st).1

-- One event of booking.cancelled.
unfoldable pub handle_cancelled :
    RefundEnv → Option PaymentError → BookingCancelledEvent → Store → Store
handle_cancelled env fault event st =
    if event.booking_id == 0
    then st
    else elim (get_payment_by_booking_id fault event.booking_id st) [
      | err e ↦ st
      | ok p ↦ refund_rest env p st
    ]

-- The loop of consumeBookingCancelled.
unfoldable pub consume_cancelled :
    List (Turn BookingCancelledEvent × RefundEnv × Option PaymentError) → Store → Store
consume_cancelled [] st = st
consume_cancelled ((stopped, _, _) ∷ _) st = st
consume_cancelled ((read_failed, _, _) ∷ ts) st = consume_cancelled ts st
consume_cancelled ((message none, _, _) ∷ ts) st = consume_cancelled ts st
consume_cancelled ((message (some event), env, fault) ∷ ts) st =
    consume_cancelled ts (handle_cancelled env fault event st)
