-- ===== src/Payment/Refunds.antt =====
-- internal/services/refund-service.go.
use booking_venue.Base.{
  ℕ, ℤ, ◌+ℤ◌, ◌-ℤ◌, wrap_int64, ltb_ℤ, leb_ℤ, false, not, Option, none, some, if◌then◌else◌, Result,
  ok, err, ◌>>=◌, ◌>>◌, check, fail_if,
}
use booking_venue.Clock.{Time}
use booking_venue.Payment.Model.{
  is_completed, refunded, Payment, Refund, refund_completed, RefundRequest, PaymentError,
  err_empty_request, err_payment_not_complete, err_refund_amount_exceed,
}
use booking_venue.Payment.Repo.{Store, first_by_id, update_payment, create_refund}
use booking_venue.Payment.Service.{zero_time}

-- The clocks, and the faults of the transaction's statements in their order.
pub record RefundEnv : Type 0 where
  pub now : Time
  pub db_now : Time
  pub begin_fault : Option PaymentError
  pub read_fault : Option PaymentError
  pub create_fault : Option PaymentError
  pub update_fault : Option PaymentError
  pub commit_fault : Option PaymentError

unfoldable pub new_refund : ℕ → RefundRequest → Refund
new_refund payment_id req = record {
  id = 0;
  created_at = zero_time;
  updated_at = zero_time;
  deleted = false;
  payment_id = payment_id;
  amount = req.amount;
  reason = req.reason;
  status = refund_completed;
}

-- `payment.RefundedAmount += req.Amount`, and the end of a payment that is refunded in full.
unfoldable pub add_refund : Time → ℤ → Payment → Payment
add_refund now amount p =
    let p' : Payment = record p { refunded_amount = wrap_int64 (p.refunded_amount +ℤ amount) } in
    if leb_ℤ p.amount p'.refunded_amount
    then record p' { status = refunded; refunded_at = some now }
    else p'

-- The checks on the row that the transaction has locked.
unfoldable pub check_refund : ℤ → Payment → Result PaymentError (Unit {0})
check_refund amount p = do
  fail_if (not (is_completed p.status)) err_payment_not_complete
  fail_if (ltb_ℤ (wrap_int64 (p.amount -ℤ p.refunded_amount)) amount) err_refund_amount_exceed

-- The function that runs in the transaction, on the store that it sees, and its commit.
unfoldable pub refund_transaction :
    RefundEnv → ℕ → RefundRequest → Store → Result PaymentError (Refund × Store)
refund_transaction env payment_id req st = do
  check env.begin_fault
  check env.read_fault
  p ← first_by_id payment_id st.payments
  check_refund req.amount p
  check env.create_fault
  let created = create_refund env.db_now (new_refund payment_id req) st
  check env.update_fault
  check env.commit_fault
  ok (created.0, update_payment env.db_now (add_refund env.now req.amount p) created.1)

-- CreateRefund: an error rolls the transaction back. A nil request is `none`.
unfoldable pub refund_payment :
    RefundEnv → ℕ → Option RefundRequest → Store → Result PaymentError Refund × Store
refund_payment env payment_id none st = (err err_empty_request, st)
refund_payment env payment_id (some req) st = elim (refund_transaction env payment_id req st) [
  | err e ↦ (err e, st)
  | ok out ↦ (ok out.0, out.1)
]
