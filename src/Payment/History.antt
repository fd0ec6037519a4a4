-- ===== src/Payment/History.antt =====
-- The payment tables over a history of HTTP requests and Kafka events that are handled one after
-- another.
use booking_venue.Base.{
  ℕ, ◌≡◌, inl, inr, pos, ◌≤ℤ◌, ◌-ℤ◌, leb_ℤ, wrap_int64, max_int64, ◌||◌, Option, some, ◌==◌, Result,
  ok, err, arith, Result-cases, Bool-cases,
}
use booking_venue.Float64.{Float64}
use booking_venue.Payment.Model.{
  is_completed, Payment, CreatePaymentRequest, RefundRequest, PaymentError,
}
use booking_venue.Payment.Repo.{Store, get_payment_by_booking_id}
use booking_venue.Payment.Service.{PaymentEnv, create_completed_payment}
use booking_venue.Payment.Refunds.{RefundEnv, refund_payment}
use booking_venue.Payment.Consumer.{
  BookingCreatedEvent, BookingCancelledEvent, is_not_found, booking_request, create_if_absent,
  handle_created, refund_rest, handle_cancelled,
}
use booking_venue.Payment.Balance.{IsSound}
use booking_venue.Payment.Balance.Creating.{
  Fits, create_completed_payment-IsSound, create_pending_payment-IsSound,
}
use booking_venue.Payment.Balance.Sound.{refund_payment-IsSound}

rest-IsSound :
    (env : RefundEnv) (p : Payment) (st : Store) → IsSound st → IsSound (refund_rest env p st)
unfolding refund_rest
rest-IsSound env p st s = elim (Bool-cases (is_completed p.status)) [
  | inr open_payment ↦ rw open_payment s
  | inl done ↦ elim (Bool-cases (leb_ℤ (wrap_int64 (p.amount -ℤ p.refunded_amount)) (pos 0))) [
    | inl nothing ↦ rw (done, nothing) s
    | inr more ↦ rw (done, more) (refund_payment-IsSound env p.id _ st (ground (arith, more)) s)
  ]
]

-- The event of a cancelled booking keeps the tables sound, whatever the database answers.
pub handle_cancelled-IsSound :
    (env : RefundEnv) (fault : Option PaymentError) (event : BookingCancelledEvent) (st : Store)
    → IsSound st
    → IsSound (handle_cancelled env fault event st)
unfolding handle_cancelled
handle_cancelled-IsSound env fault event st s = elim (Bool-cases (event.booking_id == 0)) [
  | inl z ↦ rw z s
  | inr nz ↦ elim (Result-cases (get_payment_by_booking_id fault event.booking_id st)) [
    | inl (e, q) ↦ rw (nz, q) s
    | inr (p, q) ↦ rw (nz, q) (rest-IsSound env p st s)
  ]
]

absent-IsSound :
    (env : PaymentEnv) (req : CreatePaymentRequest) (r : Result PaymentError Payment) (st : Store)
    → Fits (some req)
    → IsSound st
    → IsSound (create_if_absent env req r st)
unfolding create_if_absent
absent-IsSound env req (ok p) st f s = s
absent-IsSound env req (err e) st f s = elim (Bool-cases (is_not_found e)) [
  | inl n ↦ rw n (create_pending_payment-IsSound env (some req) st f s)
  | inr n ↦ rw n s
]

module _ (float : Float64) where
  open float use {F, round}

  -- `int64(math.Round(x))` is an `int64`.
  abbrev pub RoundFits : Type 0
  RoundFits = (x : F) → round x ≤ℤ pos max_int64

  -- The event of a created booking keeps the tables sound, whatever the database answers.
  pub handle_created-IsSound :
      (env : PaymentEnv) (fault : Option PaymentError) (event : BookingCreatedEvent F) (st : Store)
      → RoundFits
      → IsSound st
      → IsSound (handle_created float env fault event st)
  unfolding handle_created booking_request
  handle_created-IsSound env fault event st fits s =
      elim (Bool-cases (event.booking_id == 0 || event.client_id == 0)) [
        | inl z ↦ rw z s
        | inr nz ↦ elim (Bool-cases (leb_ℤ (round event.price) (pos 0))) [
          | inl n ↦ rw (nz, n) s
          | inr n ↦ rw (nz, n) (absent-IsSound env _ _ st (fits event.price) s)
        ]
      ]

  -- One request or event. A request to pay has an amount that is an `int64`; one to refund has a
  -- positive amount, as the binding of its DTO demands.
  pub data Step (st st' : Store) : Type 0 where
    pay :
        (env : PaymentEnv) (req : CreatePaymentRequest)
        → req.amount ≤ℤ pos max_int64
        → st' ≡ (create_completed_payment env (some req) st).1
        → Step st st'
    refund :
        (env : RefundEnv) (payment_id : ℕ) (req : RefundRequest)
        → pos 1 ≤ℤ req.amount
        → st' ≡ (refund_payment env payment_id (some req) st).1
        → Step st st'
    created :
        (env : PaymentEnv) (fault : Option PaymentError) (event : BookingCreatedEvent F)
        → st' ≡ handle_created float env fault event st
        → Step st st'
    cancelled :
        (env : RefundEnv) (fault : Option PaymentError) (event : BookingCancelledEvent)
        → st' ≡ handle_cancelled env fault event st
        → Step st st'

  pub data History (st : Store) : Store → Type 0 where
    start : History st st
    next : {t u : Store} → History st t → Step t u → History st u

  Step-IsSound : {st st' : Store} → RoundFits → Step st st' → IsSound st → IsSound st'
  Step-IsSound {st} fits (pay env req f e) s =
      rw e (create_completed_payment-IsSound env (some req) st f s)
  Step-IsSound {st} fits (refund env payment_id req pa e) s =
      rw e (refund_payment-IsSound env payment_id req st pa s)
  Step-IsSound {st} fits (created env fault event e) s =
      rw e (handle_created-IsSound env fault event st fits s)
  Step-IsSound {st} fits (cancelled env fault event e) s =
      rw e (handle_cancelled-IsSound env fault event st s)

  -- Where a rounded price is an `int64`, every history of requests and events keeps the tables
  -- sound, where a request to pay has an amount that is an `int64` and one to refund a positive
  -- amount: what is recorded as refunded of every payment is the sum of its refunds, and does not
  -- exceed the payment's amount.
  pub History-IsSound : {st st' : Store} → RoundFits → History st st' → IsSound st → IsSound st'
  History-IsSound fits start s = s
  History-IsSound fits (next h step) s = Step-IsSound fits step (History-IsSound fits h s)
