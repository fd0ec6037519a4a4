-- ===== src/Payment/Balance.antt =====
-- The invariant of the payment tables: what is recorded as refunded is the sum of the refunds, and
-- never more than was paid.
pub mod Creating
pub mod Refunding
pub mod Sound
use booking_venue.Base.{ℕ, ◌<◌, ◌≡◌, ℤ, pos, ◌≤ℤ◌, max_int64, List, All}
use booking_venue.Payment.Model.{Payment, Refund, completed, refunded}
use booking_venue.Payment.Repo.{Store}
use booking_venue.Payment.Repo.Rows.{HasKeys, refunded_sum}

-- One payment against the table of refunds.
pub record IsBalanced (rs : List Refund) (p : Payment) : Type 0 where
  pub positive : pos 1 ≤ℤ p.amount
  pub fits : p.amount ≤ℤ pos max_int64
  pub not_negative : pos 0 ≤ℤ p.refunded_amount
  pub covered : p.refunded_amount ≤ℤ p.amount
  pub exact : p.refunded_amount ≡ refunded_sum p.id rs
  -- A completed payment still has something to refund, a refunded one has nothing.
  pub open_rest : p.status ≡ completed → ¬ (p.amount ≤ℤ p.refunded_amount)
  pub no_rest : p.status ≡ refunded → p.refunded_amount ≡ p.amount

pub record IsSound (st : Store) : Type 0 where
  pub keys : HasKeys st.next_payment_id st.payments
  pub known : All (λ r. r.payment_id < st.next_payment_id) st.refunds
  pub balanced : All (IsBalanced st.refunds) st.payments
