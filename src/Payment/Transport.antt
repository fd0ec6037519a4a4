-- ===== src/Payment/Transport.antt =====
-- internal/transport/handler.go and the response types of internal/dto. What gin makes of a body is
-- given: `none` is its error. A handler returns its response and the tables after it.
pub mod Mapping
pub mod Pages
use booking_venue.Base.{
  ℕ, ℤ, pos, Bool, true, false, Option, none, some, List, map, if◌then◌else◌, length, Result, ok,
  err, ◌>>=◌,
}
use booking_venue.Clock.{Time}
use booking_venue.Clock.HourMinute.{Text}
use booking_venue.Strings.{is_empty_text, parse_uint, atoi}
use booking_venue.Payment.Model.{
  PaymentStatus, PaymentMethod, RefundStatus, Payment, Refund, CreatePaymentRequest, RefundRequest,
  PaymentError, err_not_found, err_empty_request, err_invalid_amount, err_invalid_method,
  err_payment_not_complete, err_refund_amount_exceed,
}
use booking_venue.Payment.Repo.{
  Store, get_payment_by_id, get_payment_by_booking_id, get_payments_by_user_id,
}
use booking_venue.Payment.Service.{PaymentEnv, create_completed_payment}
use booking_venue.Payment.Refunds.{RefundEnv, refund_payment}

pub record PaymentResponse : Type 0 where
  pub id : ℕ
  pub booking_id : ℕ
  pub user_id : ℕ
  pub amount : ℤ
  pub currency : Text
  pub method : PaymentMethod
  pub status : PaymentStatus
  pub refunded_amount : ℤ
  pub paid_at : Option Time
  pub refunded_at : Option Time
  pub created_at : Time
  pub updated_at : Time

pub record PaymentHistoryResponse : Type 0 where
  pub payments : List PaymentResponse
  pub total : ℕ
  pub count : ℕ

pub record RefundResponse : Type 0 where
  pub id : ℕ
  pub payment_id : ℕ
  pub amount : ℤ
  pub reason : Text
  pub status : RefundStatus
  pub created_at : Time
  pub updated_at : Time

-- The calls of writeError.
pub data Failure : Type 0 where
  bad_body bad_id no_user_id not_found internal : Failure
  payment_failed refund_failed : PaymentError → Failure

pub data Body : Type 0 where
  error_body : Failure → Body
  payment_body : PaymentResponse → Body
  history_body : PaymentHistoryResponse → Body
  refund_body : RefundResponse → Body

pub record Response : Type 0 where
  pub code : ℕ
  pub body : Body

-- writeError
abbrev pub write_error : ℕ → Failure → Response
write_error code e = record { code = code; body = error_body e }

-- paymentToResponse
unfoldable pub payment_to_response : Payment → PaymentResponse
payment_to_response p = record {
  id = p.id;
  booking_id = p.booking_id;
  user_id = p.user_id;
  amount = p.amount;
  currency = p.currency;
  method = p.method;
  status = p.status;
  refunded_amount = p.refunded_amount;
  paid_at = p.paid_at;
  refunded_at = p.refunded_at;
  created_at = p.created_at;
  updated_at = p.updated_at;
}

-- refundToResponse
unfoldable pub refund_to_response : Refund → RefundResponse
refund_to_response r = record {
  id = r.id;
  payment_id = r.payment_id;
  amount = r.amount;
  reason = r.reason;
  status = r.status;
  created_at = r.created_at;
  updated_at = r.updated_at;
}

-- parseUintID: 32 bits.
unfoldable pub parse_uint_id : Text → Option ℕ
parse_uint_id raw = parse_uint 32 raw

-- One of the two parameters of parseLimitOffset: the default where it is missing or no `int`.
abbrev pub int_or : ℤ → Option ℤ → ℤ
int_or default none = default
int_or default (some n) = n

unfoldable pub parse_limit_offset : Text → Text → ℤ × ℤ
parse_limit_offset limit offset = (
  if is_empty_text limit then pos 10 else int_or (pos 10) (atoi limit),
  if is_empty_text offset then pos 0 else int_or (pos 0) (atoi offset),
)

-- isClientError
abbrev pub is_client_error : PaymentError → Bool
is_client_error err_empty_request = true
is_client_error err_invalid_amount = true
is_client_error err_invalid_method = true
is_client_error err_payment_not_complete = true
is_client_error err_refund_amount_exceed = true
is_client_error _ = false

abbrev pub created_reply : Result PaymentError Payment × Store → Response × Store
created_reply (ok p, st) = (record { code = 201; body = payment_body (payment_to_response p) }, st)
created_reply (err e, st) =
    (if is_client_error e then write_error 400 (payment_failed e) else write_error 500 internal, st)

-- CreatePayment
unfoldable pub handle_create : PaymentEnv → Option CreatePaymentRequest → Store → Response × Store
handle_create env none st = (write_error 400 bad_body, st)
handle_create env (some req) st = created_reply (create_completed_payment env (some req) st)

abbrev pub payment_reply : Result PaymentError Payment → Response
payment_reply (ok p) = record { code = 200; body = payment_body (payment_to_response p) }
payment_reply (err err_not_found) = write_error 404 not_found
payment_reply (err e) = write_error 500 internal

-- GetPaymentByID
unfoldable pub handle_get : Option PaymentError → Text → Store → Response
unfolding parse_uint_id
handle_get fault id st = elim (parse_uint_id id) [
  | none ↦ write_error 400 bad_id
  | some k ↦ payment_reply (get_payment_by_id fault k st)
]

-- GetPaymentByBookingID
unfoldable pub handle_get_by_booking : Option PaymentError → Text → Store → Response
unfolding parse_uint_id
handle_get_by_booking fault id st = elim (parse_uint_id id) [
  | none ↦ write_error 400 bad_id
  | some k ↦ payment_reply (get_payment_by_booking_id fault k st)
]

-- What GetPaymentsHistory reads: the header X-User-Id and the query's three parameters, each empty
-- where it is missing.
pub record HistoryQuery : Type 0 where
  pub header_user : Text
  pub query_user : Text
  pub limit : Text
  pub offset : Text

abbrev pub user_of : HistoryQuery → Text
user_of q = if is_empty_text q.header_user then q.query_user else q.header_user

abbrev pub history_reply : Result PaymentError (List Payment × ℕ) → Response
history_reply (err e) = write_error 500 internal
history_reply (ok (payments, total)) = record {
  code = 200;
  body = history_body (record {
    payments = map payment_to_response payments;
    total = total;
    count = length payments;
  });
}

-- GetPaymentsHistory, with the store that is counted and the one that is listed.
unfoldable pub handle_history :
    Option PaymentError → Option PaymentError → HistoryQuery → Store → Store → Response
unfolding parse_limit_offset parse_uint_id
handle_history count_fault find_fault q counted st =
    if is_empty_text (user_of q)
    then write_error 400 no_user_id
    else elim (parse_uint_id (user_of q)) [
      | none ↦ write_error 400 bad_id
      | some user ↦
          let (limit, offset) = parse_limit_offset q.limit q.offset in
          history_reply
            (get_payments_by_user_id count_fault find_fault user limit offset counted st)
    ]

-- The response to an error of CreateRefund.
abbrev pub refund_failure : PaymentError → Response
refund_failure err_not_found = write_error 404 not_found
refund_failure e =
    if is_client_error e then write_error 400 (refund_failed e) else write_error 500 internal

abbrev pub refunded_reply : Result PaymentError Refund × Store → Response × Store
refunded_reply (ok r, st) = (record { code = 201; body = refund_body (refund_to_response r) }, st)
refunded_reply (err e, st) = (refund_failure e, st)

-- CreateRefund
unfoldable pub handle_refund : RefundEnv → Text → Option RefundRequest → Store → Response × Store
unfolding parse_uint_id
handle_refund env id body st = elim (parse_uint_id id) [
  | none ↦ (write_error 400 bad_id, st)
  | some k ↦ elim body [
    | none ↦ (write_error 400 bad_body, st)
    | some req ↦ refunded_reply (refund_payment env k (some req) st)
  ]
]

-- The routes of RegisterRoutes, with what each handler reads of its request.
pub data Request : Type 0 where
  create_request : Option CreatePaymentRequest → Request
  history_request : HistoryQuery → Request
  get_request booking_request : Text → Request
  refund_request : Text → Option RefundRequest → Request

-- The faults of the reads, what the two writing methods take of the world, and the store when the
-- payments of a page are selected, after they have been counted.
pub record Env : Type 0 where
  pub payment : PaymentEnv
  pub refund : RefundEnv
  pub read_fault : Option PaymentError
  pub count_fault : Option PaymentError
  pub listed : Store

unfoldable pub serve : Env → Request → Store → Response × Store
serve env (create_request b) st = handle_create env.payment b st
serve env (history_request q) st =
    (handle_history env.count_fault env.read_fault q st env.listed, st)
serve env (get_request id) st = (handle_get env.read_fault id st, st)
serve env (booking_request id) st = (handle_get_by_booking env.read_fault id st, st)
serve env (refund_request id b) st = handle_refund env.refund id b st
