-- ===== src/Payment/Balance/Refunding.antt =====
-- A refund keeps the invariant, and what it does to the two tables.
use booking_venue.Base.{
  ℕ, ◌+◌, ◌≡◌, ◌≢◌, refl, ◌⊎◌, inl, inr, ℤ, pos, ◌≤ℤ◌, ◌+ℤ◌, ◌-ℤ◌, wrap_int64, wrap_int64_lem,
  leb_ℤ, some, List, [], ◌∷◌, ◌++◌, ok, err, arith, Result-cases, Bool-cases, false, sym, ap, ◌∙◌,
  int_laws,
}
use booking_venue.Clock.{Time}
use booking_venue.Payment.Model.{completed, Payment, Refund, RefundRequest, PaymentError}
use booking_venue.Payment.Repo.{Store, first_by_id, put_payment, update_payment, create_refund}
use booking_venue.Payment.Repo.Rows.{refunded_sum, refunded_sum-append_self, refunded_sum-append_ne}
use booking_venue.Payment.Refunds.{
  RefundEnv, new_refund, add_refund, check_refund, refund_transaction, refund_payment,
}
use booking_venue.Payment.Balance.{IsBalanced}

-- What is left of a balanced payment is an `int64`, so the subtraction does not wrap.
pub rest-exact :
    (rs : List Refund) (p : Payment)
    → IsBalanced rs p
    → wrap_int64 (p.amount -ℤ p.refunded_amount) ≡ p.amount -ℤ p.refunded_amount
rest-exact rs p b =
    let low = b.not_negative in
    let high = b.covered in
    let top = b.fits in
    wrap_int64_lem (p.amount -ℤ p.refunded_amount) (omega int_laws, omega int_laws)

-- Neither does the addition of a refund that the rest covers.
sum-exact :
    (rs : List Refund) (p : Payment) (a : ℤ)
    → IsBalanced rs p
    → pos 1 ≤ℤ a
    → a ≤ℤ p.amount -ℤ p.refunded_amount
    → wrap_int64 (p.refunded_amount +ℤ a) ≡ p.refunded_amount +ℤ a
sum-exact rs p a b pa h =
    let low = b.not_negative in
    let top = b.fits in wrap_int64_lem (p.refunded_amount +ℤ a) (omega int_laws, omega int_laws)

pub check_refund-ok :
    (rs : List Refund) (a : ℤ) (p : Payment)
    → IsBalanced rs p
    → check_refund a p ≡ ok tt
    → (p.status ≡ completed) × (a ≤ℤ p.amount -ℤ p.refunded_amount)
unfolding check_refund
check_refund-ok rs a p b h = ground (arith, rest-exact rs p b)

pub add_refund-IsBalanced :
    (rs : List Refund) (now db_now : Time) (r : Refund) (p : Payment)
    → IsBalanced rs p
    → pos 1 ≤ℤ r.amount
    → r.amount ≤ℤ p.amount -ℤ p.refunded_amount
    → r.payment_id ≡ p.id
    → p.status ≡ completed
    → IsBalanced (rs ++ r ∷ []) (record (add_refund now r.amount p) { updated_at = db_now })
unfolding add_refund
add_refund-IsBalanced rs now db_now r p b pa h e done =
    let a = r.amount in
    let w = sum-exact rs p a b pa h in
    let low = b.not_negative in
    let exact : wrap_int64 (p.refunded_amount +ℤ a) ≡ refunded_sum p.id (rs ++ r ∷ []) =
      w ∙ ap (λ x. x +ℤ a) b.exact ∙ sym (refunded_sum-append_self p.id rs r e) in
    let covered : wrap_int64 (p.refunded_amount +ℤ a) ≤ℤ p.amount = rw w (omega int_laws) in
    let not_negative : pos 0 ≤ℤ wrap_int64 (p.refunded_amount +ℤ a) = rw w (omega int_laws) in
    elim (Bool-cases (leb_ℤ p.amount (wrap_int64 (p.refunded_amount +ℤ a)))) [
      | inl full ↦ rw full (record {
        positive = b.positive;
        fits = b.fits;
        not_negative = not_negative;
        covered = covered;
        exact = exact;
        open_rest = λ c. cc c;
        no_rest = λ _. grind (int_laws, full, covered);
      })
      | inr part ↦ rw part (record {
        positive = b.positive;
        fits = b.fits;
        not_negative = not_negative;
        covered = covered;
        exact = exact;
        open_rest = λ _ le. ground (arith, part, le);
        no_rest = λ c. cc (done, c);
      })
    ]

-- The other payments see no new refund.
pub other-IsBalanced :
    (rs : List Refund) (r : Refund) (q : Payment)
    → IsBalanced rs q
    → q.id ≢ r.payment_id
    → IsBalanced (rs ++ r ∷ []) q
other-IsBalanced rs r q b ne = record {
  positive = b.positive;
  fits = b.fits;
  not_negative = b.not_negative;
  covered = b.covered;
  exact = b.exact ∙ sym (refunded_sum-append_ne q.id rs r (λ e. ne (sym e)));
  open_rest = b.open_rest;
  no_rest = b.no_rest;
}

-- The row of a refund as it is inserted, and the row of its payment as it is saved.
abbrev pub refund_row : RefundEnv → ℕ → RefundRequest → Store → Refund
refund_row env payment_id req st = record (new_refund payment_id req) {
  id = st.next_refund_id;
  created_at = env.db_now;
  updated_at = env.db_now;
  deleted = false;
}

abbrev pub payment_row : RefundEnv → RefundRequest → Payment → Payment
payment_row env req p = record (add_refund env.now req.amount p) { updated_at = env.db_now }

-- What a refund has read and written.
pub record IsRefunded (env : RefundEnv) (payment_id : ℕ) (req : RefundRequest) (st st' : Store)
    (r : Refund) : Type 0 where
  pub payment : Payment
  pub found : first_by_id payment_id st.payments ≡ ok payment
  pub accepted : check_refund req.amount payment ≡ ok tt
  pub row : r ≡ refund_row env payment_id req st
  pub after : st' ≡ record st {
    payments = put_payment (payment_row env req payment) st.payments;
    refunds = st.refunds ++ r ∷ [];
    next_refund_id = st.next_refund_id + 1;
  }

transaction-IsRefunded :
    (env : RefundEnv) (payment_id : ℕ) (req : RefundRequest) (st : Store) (out : Refund × Store)
    → refund_transaction env payment_id req st ≡ ok out
    → IsRefunded env payment_id req st out.1 out.0
unfolding refund_transaction create_refund update_payment
transaction-IsRefunded env payment_id req st out h =
    elim (Result-cases (first_by_id payment_id st.payments)) [
      | inl (e, q) ↦ absurd (ground (arith, q))
      | inr (p, q) ↦ record {
        payment = p;
        found = q;
        accepted = ground (arith, q);
        row = ground (arith, q);
        after = ground (arith, q);
      }
    ]

-- A refund either returns an error and writes nothing, or has found the payment completed with
-- enough left, appends one refund and saves the one payment.
pub refund_payment-runs :
    (env : RefundEnv) (payment_id : ℕ) (req : RefundRequest) (st : Store)
    → let (r, st') = refund_payment env payment_id (some req) st in
      ((e : PaymentError) × (r ≡ err e) × (st' ≡ st))
      ⊎ ((x : Refund) × (r ≡ ok x) × IsRefunded env payment_id req st st' x)
unfolding refund_payment
refund_payment-runs env payment_id req st =
    elim (Result-cases (refund_transaction env payment_id req st)) [
      | inl (e, q) ↦ rw (q, refund_payment) (inl (e, refl, refl))
      | inr (out, q) ↦
          rw (q, refund_payment)
            (inr (out.0, refl, transaction-IsRefunded env payment_id req st out q))
    ]
