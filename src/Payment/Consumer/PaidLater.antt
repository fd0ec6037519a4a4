-- ===== src/Payment/Consumer/PaidLater.antt =====
-- A booking that is paid by CreatePayment and then cancelled.
use booking_venue.Base.{
  ℕ, ◌≡◌, ◌≢◌, inl, inr, Option, none, some, ok, err, ◌>>◌, check, Result-cases,
}
use booking_venue.Float64.{Float64}
use booking_venue.Payment.Model.{completed, Payment, CreatePaymentRequest, PaymentError}
use booking_venue.Payment.Repo.{Store, first_by_booking, create_payment}
use booking_venue.Payment.Service.{
  PaymentEnv, check_payment, new_payment, make_payment, create_completed_payment,
}
use booking_venue.Payment.Refunds.{RefundEnv}
use booking_venue.Payment.Consumer.{
  BookingCreatedEvent, BookingCancelledEvent, handle_created, handle_cancelled,
}
use booking_venue.Payment.Consumer.Lookup.{first_by_booking-append}
use booking_venue.Payment.Consumer.Delivery.{
  IsUsable, pending_row, handle_created-new, handle_cancelled-skips,
}

-- Paying a booking does not change which of its payments is the first.
still_first :
    (env : PaymentEnv) (req : CreatePaymentRequest) (b : ℕ) (st : Store) (p : Payment)
    → first_by_booking b st.payments ≡ ok p
    → first_by_booking b (create_completed_payment env (some req) st).1.payments ≡ ok p
unfolding create_completed_payment make_payment create_payment
still_first env req b st p h = elim (Result-cases (check_payment req >> check env.create_fault)) [
  | inl (e, q) ↦ rw (create_completed_payment, make_payment, q) h
  | inr (_, q) ↦
      rw (create_completed_payment, make_payment, q) (first_by_booking-append b st.payments _ p h)
]

module _ (float : Float64) where
  open float use {F}

  pending_row-open :
      (env : PaymentEnv) (event : BookingCreatedEvent F) (st : Store)
      → (pending_row float env event st).status ≢ completed
  unfolding new_payment
  pending_row-open env event st h = cc h

  -- A booking is created, its client pays it with `CreatePayment`, and it is cancelled: the pending
  -- payment that the creation left is still the booking's first, so nothing is refunded.
  pub paid_booking-not_refunded :
      (created : PaymentEnv) (event : BookingCreatedEvent F) (paid : PaymentEnv)
      (req : CreatePaymentRequest) (env : RefundEnv) (fault : Option PaymentError)
      (cancelled : BookingCancelledEvent) (st : Store) (e : PaymentError)
      → IsUsable float event
      → created.create_fault ≡ none
      → first_by_booking event.booking_id st.payments ≡ err e
      → cancelled.booking_id ≡ event.booking_id
      → let paid_store =
          (create_completed_payment paid
            (some req)
            (handle_created float created none event st)).1 in
        handle_cancelled env fault cancelled paid_store ≡ paid_store
  paid_booking-not_refunded created event paid req env fault cancelled st e u f h same =
      let st1 = handle_created float created none event st in
      let first = (handle_created-new float created event st e u f h).1 in
      handle_cancelled-skips env fault cancelled _ (pending_row float created event st)
        (rw same
          (still_first paid req event.booking_id st1 (pending_row float created event st) first))
        (pending_row-open created event st)
