-- ===== src/Payment/Balance/Sound.antt =====
-- Every operation of the payment service keeps the tables sound.
use booking_venue.Base.{
  ℕ, ◌≡◌, ◌≢◌, inl, inr, ◌<◌, pos, ◌≤ℤ◌, some, [], ◌∷◌, ◌++◌, arith, All, All-append, All-map, sym,
  ap, subst, ◌∙◌,
}
use booking_venue.Payment.Model.{Payment, Refund, RefundRequest}
use booking_venue.Payment.Repo.{Store, put_payment}
use booking_venue.Payment.Repo.Rows.{
  first_by_id-id, first_by_id-All, first_by_id-below, put_payment-All, put_payment-HasKeys,
}
use booking_venue.Payment.Refunds.{RefundEnv, new_refund, add_refund, refund_payment}
use booking_venue.Payment.Balance.{IsBalanced, IsSound}
use booking_venue.Payment.Balance.Refunding.{
  check_refund-ok, add_refund-IsBalanced, other-IsBalanced, payment_row, IsRefunded,
  refund_payment-runs,
}

payment_row-id :
    (env : RefundEnv) (req : RefundRequest) (p : Payment)
    → ((payment_row env req p).id ≡ p.id) × ((payment_row env req p).deleted ≡ p.deleted)
unfolding add_refund
payment_row-id env req p = ground arith

module _ (env : RefundEnv) (payment_id : ℕ) (req : RefundRequest) (st st' : Store) (r : Refund)
    (pa : pos 1 ≤ℤ req.amount) (s : IsSound st) (u : IsRefunded env payment_id req st st' r) where
  pub paid-IsBalanced : IsBalanced st.refunds u.payment
  paid-IsBalanced =
      first_by_id-All (IsBalanced st.refunds) payment_id st.payments u.payment s.balanced u.found

  row_amount : r.amount ≡ req.amount
  unfolding new_refund
  row_amount = ap (λ x. x.amount) u.row

  row_for : r.payment_id ≡ u.payment.id
  unfolding new_refund
  row_for =
      ap (λ x. x.payment_id) u.row ∙ sym (first_by_id-id payment_id st.payments u.payment u.found).0

  saved-IsBalanced : IsBalanced (st.refunds ++ r ∷ []) (payment_row env req u.payment)
  saved-IsBalanced =
      let b = paid-IsBalanced in
      let (done, enough) = check_refund-ok st.refunds req.amount u.payment b u.accepted in
      subst
        (λ a.
          IsBalanced (st.refunds ++ r ∷ [])
            (record (add_refund env.now a u.payment) { updated_at = env.db_now }))
        row_amount
        (add_refund-IsBalanced st.refunds env.now env.db_now r u.payment b (rw row_amount pa)
          (rw row_amount enough) row_for done)

  saved_below : (payment_row env req u.payment).id < st.next_payment_id
  saved_below = rw (payment_row-id env req u.payment).0 (
      rw (first_by_id-id payment_id st.payments u.payment u.found).0
        (first_by_id-below st.next_payment_id payment_id st.payments u.payment s.keys u.found))

  rows-IsBalanced :
      All
        (IsBalanced (st.refunds ++ r ∷ []))
        (put_payment (payment_row env req u.payment) st.payments)
  rows-IsBalanced =
      put_payment-All (IsBalanced (st.refunds ++ r ∷ [])) st.next_payment_id
        (payment_row env req u.payment) st.payments s.keys
        (All-map (IsBalanced st.refunds)
          (λ q. q.id ≢ (payment_row env req u.payment).id → IsBalanced (st.refunds ++ r ∷ []) q)
          st.payments
          (λ q b ne.
            other-IsBalanced st.refunds r q b
              (λ e. ne (e ∙ row_for ∙ sym (payment_row-id env req u.payment).0)))
          s.balanced)
        saved-IsBalanced

  refunded-IsSound : IsSound st'
  refunded-IsSound = rw u.after (record {
    keys =
        put_payment-HasKeys st.next_payment_id (payment_row env req u.payment) st.payments
          saved_below s.keys;
    known =
        All-append (λ x. x.payment_id < st.next_payment_id) st.refunds (r ∷ []) s.known
          (rw (row_for, ← (payment_row-id env req u.payment).0) saved_below, tt);
    balanced = rows-IsBalanced;
  })

-- A refund of a positive amount keeps the tables sound: what is refunded of a payment is the sum of
-- its refunds and never exceeds what was paid.
pub refund_payment-IsSound :
    (env : RefundEnv) (payment_id : ℕ) (req : RefundRequest) (st : Store)
    → pos 1 ≤ℤ req.amount
    → IsSound st
    → IsSound (refund_payment env payment_id (some req) st).1
refund_payment-IsSound env payment_id req st pa s =
    elim (refund_payment-runs env payment_id req st) [
      | inl (e, _, same) ↦ rw same s
      | inr (r, _, u) ↦ refunded-IsSound env payment_id req st _ r pa s u
    ]
