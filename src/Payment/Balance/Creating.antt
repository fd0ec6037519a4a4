-- ===== src/Payment/Balance/Creating.antt =====
-- Creating a payment keeps the invariant.
use booking_venue.Base.{
  ◌≡◌, refl, inl, inr, pos, ◌≤ℤ◌, max_int64, Bool, Option, none, some, if◌then◌else◌, ok, ◌>>◌,
  check, arith, All-append, All-map, Result-cases, sym,
}
use booking_venue.Clock.{Time}
use booking_venue.Payment.Model.{
  PaymentStatus, completed, pending, refunded, CreatePaymentRequest, PaymentError,
}
use booking_venue.Payment.Repo.{Store, create_payment}
use booking_venue.Payment.Repo.Rows.{append-HasKeys, refunded_sum-new}
use booking_venue.Payment.Service.{
  PaymentEnv, check_payment, new_payment, make_payment, create_completed_payment,
  create_pending_payment,
}
use booking_venue.Payment.Balance.{IsBalanced, IsSound}

check_payment-positive :
    (req : CreatePaymentRequest) (fault : Option PaymentError)
    → (check_payment req >> check fault) ≡ ok tt
    → pos 1 ≤ℤ req.amount
unfolding check_payment
check_payment-positive req fault h = ground arith

-- The amount of a request is an `int64`.
abbrev pub Fits : Option CreatePaymentRequest → Type 0
Fits none = Unit
Fits (some req) = req.amount ≤ℤ pos max_int64

stored-IsSound :
    (now : Time) (req : CreatePaymentRequest) (status : PaymentStatus) (paid_at : Option Time)
    (st : Store)
    → pos 1 ≤ℤ req.amount
    → req.amount ≤ℤ pos max_int64
    → ¬ (status ≡ refunded)
    → IsSound st
    → IsSound (create_payment now (new_payment req status paid_at) st).1
unfolding create_payment new_payment
stored-IsSound now req status paid_at st p f ne s = record {
  keys = append-HasKeys st.next_payment_id _ st.payments refl s.keys;
  known = All-map _ _ st.refunds (λ r h. omega arith) s.known;
  balanced = All-append (IsBalanced st.refunds) st.payments _ s.balanced (
    record {
      positive = p;
      fits = f;
      not_negative = omega arith;
      covered = omega arith;
      exact = sym (refunded_sum-new st.next_payment_id st.refunds s.known);
      open_rest = λ _ le. omega arith;
      no_rest = λ e. absurd (ne e);
    },
    tt,
  );
}

make_payment-IsSound :
    (env : PaymentEnv) (req : Option CreatePaymentRequest) (status : PaymentStatus)
    (set_paid_at : Bool) (st : Store)
    → Fits req
    → ¬ (status ≡ refunded)
    → IsSound st
    → IsSound (make_payment env req status set_paid_at st).1
unfolding make_payment
make_payment-IsSound env none status set_paid_at st f ne s = s
make_payment-IsSound env (some req) status set_paid_at st f ne s =
    elim (Result-cases (check_payment req >> check env.create_fault)) [
      | inl (e, q) ↦ rw (q, make_payment) s
      | inr (_, q) ↦
          rw (q, make_payment)
            (stored-IsSound env.db_now req status (if set_paid_at then some env.now else none) st
              (check_payment-positive req env.create_fault q) f ne s)
    ]

-- `CreatePayment` keeps sound tables sound, whatever the request: none, or one whose amount is at
-- most the greatest `int64`, valid or not.
pub create_completed_payment-IsSound :
    (env : PaymentEnv) (req : Option CreatePaymentRequest) (st : Store)
    → Fits req
    → IsSound st
    → IsSound (create_completed_payment env req st).1
unfolding create_completed_payment
create_completed_payment-IsSound env req st f s =
    make_payment-IsSound env req completed Bool.true st f (λ e. cc e) s

pub create_pending_payment-IsSound :
    (env : PaymentEnv) (req : Option CreatePaymentRequest) (st : Store)
    → Fits req
    → IsSound st
    → IsSound (create_pending_payment env req st).1
unfolding create_pending_payment
create_pending_payment-IsSound env req st f s =
    make_payment-IsSound env req pending Bool.false st f (λ e. cc e) s
