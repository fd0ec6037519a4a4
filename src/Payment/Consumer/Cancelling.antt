-- ===== src/Payment/Consumer/Cancelling.antt =====
-- The refund that the cancellation of a paid booking leads to.
use booking_venue.Base.{
  ℕ, ◌≡◌, ◌≢◌, pos, ◌+ℤ◌, ◌-ℤ◌, wrap_int64, wrap_int64_lem, leb_ℤ, false, Option, none, some, List,
  ok, arith, subst, ◌∙◌, int_laws, -ℤ_parts,
}
use booking_venue.Clock.{Time}
use booking_venue.Payment.Model.{completed, refunded, Payment, Refund, RefundRequest, PaymentError}
use booking_venue.Payment.Repo.{
  Store, first_by_booking, first_by_id, put_payment, update_payment, create_refund,
}
use booking_venue.Payment.Repo.Rows.{first_by_id-All, first_by_id-put_self}
use booking_venue.Payment.Refunds.{
  RefundEnv, add_refund, check_refund, refund_transaction, refund_payment,
}
use booking_venue.Payment.Balance.{IsBalanced, IsSound}
use booking_venue.Payment.Balance.Refunding.{rest-exact, payment_row}
use booking_venue.Payment.Consumer.{
  cancel_reason, BookingCancelledEvent, refund_rest, handle_cancelled,
}
use booking_venue.Payment.Consumer.Lookup.{
  first_by_booking-live, first_by_booking-by_id, first_by_booking-put,
}
use booking_venue.Payment.Consumer.Delivery.{lookup_found, handle_cancelled-skips}

-- The database answers every statement of the transaction.
pub record IsFaultless (env : RefundEnv) : Type 0 where
  pub begins : env.begin_fault ≡ none
  pub reads : env.read_fault ≡ none
  pub creates : env.create_fault ≡ none
  pub updates : env.update_fault ≡ none
  pub commits : env.commit_fault ≡ none

-- The request that the consumer makes for the rest of a payment.
abbrev rest_of : Payment → RefundRequest
rest_of p = record { amount = wrap_int64 (p.amount -ℤ p.refunded_amount); reason = cancel_reason }

add_rest :
    (rs : List Refund) (now : Time) (p : Payment)
    → IsBalanced rs p
    → let p' = add_refund now (rest_of p).amount p in
      (p'.status ≡ refunded) × (p'.refunded_amount ≡ p.amount)
unfolding add_refund
add_rest rs now p b =
    let low = b.not_negative in
    let high = b.positive in
    let top = b.fits in
    let back : p.refunded_amount +ℤ (p.amount -ℤ p.refunded_amount) ≡ p.amount = omega int_laws in
    let whole : wrap_int64 (p.refunded_amount +ℤ wrap_int64 (p.amount -ℤ p.refunded_amount))
        ≡ p.amount =
      rw (rest-exact rs p b, back) (wrap_int64_lem p.amount (omega int_laws, omega int_laws)) in
    rw whole (ground arith)

rest_positive :
    (rs : List Refund) (p : Payment)
    → IsBalanced rs p
    → p.status ≡ completed
    → leb_ℤ (wrap_int64 (p.amount -ℤ p.refunded_amount)) (pos 0) ≡ false
rest_positive rs p b c =
    let more = b.open_rest c in
    rw (rest-exact rs p b) (ground (arith, -ℤ_parts p.amount p.refunded_amount, more))

rest_accepted : (p : Payment) → p.status ≡ completed → check_refund (rest_of p).amount p ≡ ok tt
unfolding check_refund
rest_accepted p c = ground arith

refunds :
    (env : RefundEnv) (k : ℕ) (req : RefundRequest) (st : Store) (p : Payment)
    → IsFaultless env
    → first_by_id k st.payments ≡ ok p
    → check_refund req.amount p ≡ ok tt
    → (refund_payment env k (some req) st).1.payments
      ≡ put_payment (payment_row env req p) st.payments
unfolding refund_payment refund_transaction create_refund update_payment
refunds env k req st p f h c = ground (arith, f.begins)

kept :
    (env : RefundEnv) (p : Payment)
    → let saved = payment_row env (rest_of p) p in
      (saved.id ≡ p.id) × (saved.booking_id ≡ p.booking_id) × (saved.deleted ≡ p.deleted)
unfolding add_refund
kept env p = ground arith

runs_refund :
    (env : RefundEnv) (event : BookingCancelledEvent) (st : Store) (p : Payment)
    → event.booking_id ≢ 0
    → first_by_booking event.booking_id st.payments ≡ ok p
    → p.status ≡ completed
    → leb_ℤ (wrap_int64 (p.amount -ℤ p.refunded_amount)) (pos 0) ≡ false
    → handle_cancelled env none event st ≡ (refund_payment env p.id (some (rest_of p)) st).1
unfolding handle_cancelled refund_rest
runs_refund env event st p nz h c more = ground (arith, lookup_found event.booking_id st p h, more)

-- What the tables hold after the refund of a rest, seen from the payment and from its booking.
after_refund :
    (env : RefundEnv) (b : ℕ) (st : Store) (p : Payment)
    → IsFaultless env
    → IsSound st
    → first_by_booking b st.payments ≡ ok p
    → p.status ≡ completed
    → let saved = payment_row env (rest_of p) p in
      let st' = (refund_payment env p.id (some (rest_of p)) st).1 in
      (first_by_id p.id st'.payments ≡ ok saved) × (first_by_booking b st'.payments ≡ ok saved)
after_refund env b st p f s h c =
    let (booking, alive) = first_by_booking-live b st.payments p h in
    let found = first_by_booking-by_id st.next_payment_id b st.payments p s.keys h in
    let saved = payment_row env (rest_of p) p in
    let (same_id, same_booking, same_deleted) = kept env p in
    rw (refunds env p.id (rest_of p) st p f found (rest_accepted p c)) (
      subst (λ k. first_by_id k (put_payment saved st.payments) ≡ ok saved) same_id
          (first_by_id-put_self saved st.payments (same_deleted ∙ alive)),
      first_by_booking-put st.next_payment_id b st.payments p saved s.keys h same_id
          (same_booking ∙ booking) (same_deleted ∙ alive),
    )

-- The event of a cancelled booking whose first payment is completed, on sound tables and a database
-- without faults: the payment ends refunded, with all of its amount, and another delivery of the
-- event changes nothing.
pub handle_cancelled-refunds :
    (env env' : RefundEnv) (fault : Option PaymentError) (event : BookingCancelledEvent)
    (st : Store) (p : Payment)
    → event.booking_id ≢ 0
    → IsFaultless env
    → IsSound st
    → first_by_booking event.booking_id st.payments ≡ ok p
    → p.status ≡ completed
    → let st' = handle_cancelled env none event st in
      (p' : Payment) × (first_by_id p.id st'.payments ≡ ok p')
      × (p'.status ≡ refunded)
      × (p'.refunded_amount ≡ p.amount)
      × (handle_cancelled env' fault event st' ≡ st')
handle_cancelled-refunds env env' fault event st p nz f s h c =
    let b =
      first_by_id-All (IsBalanced st.refunds) p.id st.payments p s.balanced
        (first_by_booking-by_id st.next_payment_id event.booking_id st.payments p s.keys h) in
    let st1 = (refund_payment env p.id (some (rest_of p)) st).1 in
    let runs : handle_cancelled env none event st ≡ st1 =
      runs_refund env event st p nz h c (rest_positive st.refunds p b c) in
    let (by_id, by_booking) = after_refund env event.booking_id st p f s h c in
    let (done, all) = add_rest st.refunds env.now p b in
    rw runs (
      payment_row env (rest_of p) p,
      by_id,
      done,
      all,
      handle_cancelled-skips env' fault event st1 (payment_row env (rest_of p) p) by_booking
          (λ e. cc (done, e)),
    )
