-- ===== src/Payment/Consumer/Delivery.antt =====
-- What the delivery of the two kinds of event does to the payments, once and again.
use booking_venue.Base.{
  ℕ, ◌≡◌, ◌≢◌, refl, ◌⊎◌, inl, inr, pos, ◌≤ℤ◌, leb_ℤ, false, ◌||◌, Option, none, some, [], ◌∷◌,
  ◌++◌, ◌==◌, ok, err, arith, ap, ◌∙◌, Result-cases, Bool-cases,
}
use booking_venue.Float64.{Float64}
use booking_venue.Payment.Model.{
  completed, pending, Payment, CreatePaymentRequest, PaymentError, is_valid_payment_method,
  err_not_found, record_not_found,
}
use booking_venue.Payment.Repo.{Store, first_by_booking, get_payment_by_booking_id, create_payment}
use booking_venue.Payment.Service.{
  PaymentEnv, check_payment, new_payment, make_payment, create_pending_payment,
}
use booking_venue.Payment.Refunds.{RefundEnv}
use booking_venue.Payment.Consumer.{
  BookingCreatedEvent, BookingCancelledEvent, booking_request, create_if_absent, handle_created,
  refund_rest, handle_cancelled,
}
use booking_venue.Payment.Consumer.Lookup.{
  first_by_booking-append_new, first_by_booking-err, get_payment_by_booking_id-ok,
}

pub lookup_found :
    (b : ℕ) (st : Store) (p : Payment)
    → first_by_booking b st.payments ≡ ok p
    → get_payment_by_booking_id none b st ≡ ok p
unfolding get_payment_by_booking_id
lookup_found b st p h = rw h

lookup_missing :
    (b : ℕ) (st : Store)
    → first_by_booking b st.payments ≡ err record_not_found
    → get_payment_by_booking_id none b st ≡ err err_not_found
unfolding get_payment_by_booking_id
lookup_missing b st h = rw h

-- A request of positive amount with a valid method is stored, where the database has no fault.
made :
    (env : PaymentEnv) (req : CreatePaymentRequest) (st : Store)
    → env.create_fault ≡ none
    → check_payment req ≡ ok tt
    → (create_pending_payment env (some req) st).1
      ≡ (create_payment env.db_now (new_payment req pending none) st).1
unfolding create_pending_payment make_payment
made env req st f c = rw (create_pending_payment, make_payment, c, f)

module _ (float : Float64) where
  open float use {F, round}

  -- The events that the consumer acts on.
  pub record IsUsable (event : BookingCreatedEvent F) : Type 0 where
    pub has_booking : event.booking_id ≢ 0
    pub has_client : event.client_id ≢ 0
    pub has_price : pos 1 ≤ℤ round event.price

  usable_step :
      (env : PaymentEnv) (fault : Option PaymentError) (event : BookingCreatedEvent F) (st : Store)
      → IsUsable event
      → handle_created float env fault event st
        ≡ create_if_absent env
            (booking_request event.booking_id event.client_id (round event.price))
            (get_payment_by_booking_id fault event.booking_id st)
            st
  unfolding handle_created
  usable_step env fault event st u = ground (arith, u.has_booking, u.has_client)

  -- A lookup that fails otherwise than by finding nothing is no reason to create a payment.
  fault_skips :
      (env : PaymentEnv) (event : BookingCreatedEvent F) (st : Store) (e : PaymentError)
      → some e ≢ some err_not_found
      → some e ≢ some record_not_found
      → handle_created float env (some e) event st ≡ st
  unfolding handle_created create_if_absent get_payment_by_booking_id
  fault_skips env event st err_not_found n m = absurd (n refl)
  fault_skips env event st record_not_found n m = absurd (m refl)
  fault_skips env event st _ n m = ground arith

  -- Once a booking has a payment, an event of its creation changes nothing, whatever goes wrong.
  pub handle_created-existing :
      (env : PaymentEnv) (fault : Option PaymentError) (event : BookingCreatedEvent F) (st : Store)
      (p : Payment)
      → first_by_booking event.booking_id st.payments ≡ ok p
      → fault ≢ some err_not_found
      → fault ≢ some record_not_found
      → handle_created float env fault event st ≡ st
  unfolding handle_created create_if_absent get_payment_by_booking_id
  handle_created-existing env none event st p h n m = ground arith
  handle_created-existing env (some e) event st p h n m =
      ground (arith, fault_skips env event st e n m)

  request_passes :
      (event : BookingCreatedEvent F)
      → IsUsable event
      → check_payment (booking_request event.booking_id event.client_id (round event.price)) ≡ ok tt
  unfolding check_payment booking_request is_valid_payment_method
  request_passes event u = ground (arith, u.has_price)

  -- The pending payment that an event leads to.
  abbrev pub pending_row : PaymentEnv → BookingCreatedEvent F → Store → Payment
  pending_row env event st =
      record (new_payment (booking_request event.booking_id event.client_id (round event.price))
        pending none) {
          id = st.next_payment_id;
          created_at = env.db_now;
          updated_at = env.db_now;
          deleted = false;
        }

  -- A usable event of a booking that has no payment yet, on a database without faults, appends one
  -- pending payment of the price, rounded, for the booking; it is then the booking's first payment.
  pub handle_created-new :
      (env : PaymentEnv) (event : BookingCreatedEvent F) (st : Store) (e : PaymentError)
      → IsUsable event
      → env.create_fault ≡ none
      → first_by_booking event.booking_id st.payments ≡ err e
      → let st' = handle_created float env none event st in
        (st'.payments ≡ st.payments ++ pending_row env event st ∷ [])
        × (first_by_booking event.booking_id st'.payments ≡ ok (pending_row env event st))
  unfolding create_if_absent create_payment booking_request new_payment
  handle_created-new env event st e u f h =
      let missing =
        lookup_missing event.booking_id st (h ∙ ap err (first_by_booking-err _ _ e h)) in
      let req = booking_request event.booking_id event.client_id (round event.price) in
      let st1 : handle_created float env none event st
          ≡ (create_payment env.db_now (new_payment req pending none) st).1 =
        usable_step env none event st u ∙ rw missing (made env req st f (request_passes event u)) in
      rw st1 (
        refl,
        first_by_booking-append_new event.booking_id st.payments (pending_row env event st) e h refl
            refl,
      )

  IsUsable-cases :
      (event : BookingCreatedEvent F)
      → IsUsable event
        ⊎ ((env : PaymentEnv) (fault : Option PaymentError) (st : Store)
            → handle_created float env fault event st ≡ st)
  unfolding handle_created
  IsUsable-cases event = elim (Bool-cases (event.booking_id == 0 || event.client_id == 0)) [
    | inl a ↦ inr (λ env fault st. rw a)
    | inr a ↦ elim (Bool-cases (leb_ℤ (round event.price) (pos 0))) [
      | inl b ↦ inr (λ env fault st. rw (a, b))
      | inr b ↦ inl (record {
        has_booking = ground (arith, a);
        has_client = ground (arith, a);
        has_price = ground (arith, b);
      })
    ]
  ]

  -- Kafka may deliver an event again: after a delivery to a database without faults, another one,
  -- whatever its lookup answers but a false "not found", changes nothing.
  pub handle_created-again :
      (env env' : PaymentEnv) (fault : Option PaymentError) (event : BookingCreatedEvent F)
      (st : Store)
      → env.create_fault ≡ none
      → fault ≢ some err_not_found
      → fault ≢ some record_not_found
      → handle_created float env' fault event (handle_created float env none event st)
        ≡ handle_created float env none event st
  handle_created-again env env' fault event st f n m = elim (IsUsable-cases event) [
    | inr idle ↦ idle env' fault (handle_created float env none event st)
    | inl u ↦ elim (Result-cases (first_by_booking event.booking_id st.payments)) [
      | inl (e, h) ↦
          handle_created-existing env' fault event _ _ (handle_created-new env event st e u f h).1 n
            m
      | inr (p, h) ↦
          rw (handle_created-existing env none event st p h (λ q. cc q) (λ q. cc q))
            (handle_created-existing env' fault event st p h n m)
    ]
  ]

-- A booking whose first payment is not completed is not refunded when it is cancelled.
pub handle_cancelled-skips :
    (env : RefundEnv) (fault : Option PaymentError) (event : BookingCancelledEvent) (st : Store)
    (p : Payment)
    → first_by_booking event.booking_id st.payments ≡ ok p
    → p.status ≢ completed
    → handle_cancelled env fault event st ≡ st
unfolding handle_cancelled refund_rest
handle_cancelled-skips env fault event st p h ne =
    elim (Result-cases (get_payment_by_booking_id fault event.booking_id st)) [
      | inl (e, q) ↦ ground (arith, q)
      | inr (p', q) ↦
          let same : p' ≡ p = cc (get_payment_by_booking_id-ok fault event.booking_id st p' q, h) in
          ground (arith, q, same)
    ]
