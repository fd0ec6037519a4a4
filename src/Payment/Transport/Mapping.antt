-- ===== src/Payment/Transport/Mapping.antt =====
-- The statuses of the payment handlers, and what they leave in the tables.
use booking_venue.Base.{
  ℕ, ◌≤◌, ◌≡◌, refl, sym, ap, ◌∙◌, false, Option, none, some, List, [], ◌∷◌, ◌++◌, ok, err, check,
  ◌>>◌, arith, Result-cases, inl, inr,
}
use booking_venue.Clock.HourMinute.{Text}
use booking_venue.Payment.Model.{
  completed, Payment, CreatePaymentRequest, RefundRequest, record_not_found,
}
use booking_venue.Payment.Repo.{Store, first_by_id, get_payment_by_id, create_payment}
use booking_venue.Payment.Repo.Rows.{HasKeys}
use booking_venue.Payment.Service.{
  PaymentEnv, new_payment, check_payment, make_payment, create_completed_payment,
}
use booking_venue.Payment.Refunds.{RefundEnv, refund_transaction, refund_payment}
use booking_venue.Payment.Transport.{
  PaymentResponse, Response, Request, Env, payment_body, write_error, not_found, internal,
  payment_to_response, parse_uint_id, handle_create, handle_get, handle_refund, serve,
  create_request, history_request, get_request, booking_request, refund_request,
}

abbrev KeepsOnError : Store → Response × Store → Type 0
KeepsOnError st out = 400 ≤ out.0.code → out.1 ≡ st

create-keeps :
    (env : PaymentEnv) (b : Option CreatePaymentRequest) (st : Store)
    → KeepsOnError st (handle_create env b st)
unfolding handle_create create_completed_payment make_payment
create-keeps env none st = λ code. refl
create-keeps env (some req) st = ground arith

refund-keeps :
    (env : RefundEnv) (id : Text) (b : Option RefundRequest) (st : Store)
    → KeepsOnError st (handle_refund env id b st)
unfolding handle_refund refund_payment
refund-keeps env id b st = ground arith

-- A response with an error status leaves both tables and their sequences as they were, on all five
-- routes.
pub serve-keeps_tables_on_error :
    (env : Env) (req : Request) (st : Store)
    → 400 ≤ (serve env req st).0.code
    → (serve env req st).1 ≡ st
unfolding serve
serve-keeps_tables_on_error env (create_request b) st h = create-keeps env.payment b st h
serve-keeps_tables_on_error env (history_request q) st h = refl
serve-keeps_tables_on_error env (get_request id) st h = refl
serve-keeps_tables_on_error env (booking_request id) st h = refl
serve-keeps_tables_on_error env (refund_request id b) st h = refund-keeps env.refund id b st h

refund_payment-missing :
    (env : RefundEnv) (k : ℕ) (req : RefundRequest) (st : Store)
    → env.begin_fault ≡ none
    → env.read_fault ≡ none
    → first_by_id k st.payments ≡ err record_not_found
    → refund_payment env k (some req) st ≡ (err record_not_found, st)
unfolding refund_payment refund_transaction
refund_payment-missing env k req st begun read missing =
    let failed : refund_transaction env k req st ≡ err record_not_found =
      rw (begun, read, missing) refl in
    rw (failed, refund_payment) refl

-- For a payment that does not exist, where the database answers, a GET is answered with 404, but a
-- refund with 500, though the handler of the refund has an answer with 404 for it.
pub handle_refund-missing :
    (env : RefundEnv) (id : Text) (k : ℕ) (req : RefundRequest) (st : Store)
    → env.begin_fault ≡ none
    → env.read_fault ≡ none
    → parse_uint_id id ≡ some k
    → first_by_id k st.payments ≡ err record_not_found
    → (handle_get none id st ≡ write_error 404 not_found)
      × (handle_refund env id (some req) st ≡ (write_error 500 internal, st))
unfolding handle_get handle_refund get_payment_by_id refund_payment refund_transaction
handle_refund-missing env id k req st begun read parsed missing = (
  rw (parsed, handle_get, missing) refl,
  rw (parsed, handle_refund, refund_payment-missing env k req st begun read missing) refl,
)

-- A row that is appended under the next id is the one that its id finds.
first_by_id-append :
    (n : ℕ) (p : Payment) (ps : List Payment)
    → HasKeys n ps
    → p.id ≡ n
    → p.deleted ≡ false
    → first_by_id n (ps ++ p ∷ []) ≡ ok p
unfolding first_by_id
first_by_id-append n p [] k e live = ground arith
first_by_id-append n p (q ∷ ps) k e live =
    let below = k.0 in ground (arith, first_by_id-append n p ps k.2 e live)

-- What a successful CreatePayment answers and stores.
created-ok :
    (env : PaymentEnv) (req : CreatePaymentRequest) (st : Store) (body : PaymentResponse)
    → (handle_create env (some req) st).0 ≡ record { code = 201; body = payment_body body }
    → (p : Payment) × (p.id ≡ st.next_payment_id)
      × (p.deleted ≡ false)
      × (body ≡ payment_to_response p)
      × ((handle_create env (some req) st).1.payments ≡ st.payments ++ p ∷ [])
unfolding handle_create create_completed_payment make_payment create_payment new_payment
created-ok env req st body h = elim (Result-cases (check_payment req >> check env.create_fault)) [
  | inl (e, bad) ↦
      let code = ap (λ (r : Response). r.code) (rw (bad, make_payment) at h) in ground arith
  | inr (u, good) ↦
      let p = (create_payment env.db_now (new_payment req completed (some env.now)) st).0 in
      (
        p,
        refl,
        refl,
        sym (shown (payment_to_response p) (rw (good, make_payment) at h)),
        rw (good, make_payment) refl,
      )
]
  where
    response : PaymentResponse → Response
    response r = record { code = 201; body = payment_body r }

    shown : (r : PaymentResponse) → response r ≡ response body → r ≡ body
    shown r e = cc e

-- A payment that POST answers with 201 is shown by a GET of its id, with the same body, as long as the
-- database answers.
pub handle_create-get :
    (env : PaymentEnv) (req : CreatePaymentRequest) (st : Store) (body : PaymentResponse)
    (id : Text)
    → HasKeys st.next_payment_id st.payments
    → (handle_create env (some req) st).0 ≡ record { code = 201; body = payment_body body }
    → parse_uint_id id ≡ some body.id
    → handle_get none id (handle_create env (some req) st).1
      ≡ record { code = 200; body = payment_body body }
unfolding handle_get get_payment_by_id payment_to_response
handle_create-get env req st body id keys created parsed =
    let (p, new, live, same, after) = created-ok env req st body created in
    let found = first_by_id-append st.next_payment_id p st.payments keys new live in
    let at_id : parse_uint_id id ≡ some st.next_payment_id =
      parsed ∙ ap (λ (r : PaymentResponse). some r.id) same ∙ ap some new in
    rw (at_id, handle_get, after, found, same) refl
