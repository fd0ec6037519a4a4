-- ===== src/Examples/Handlers.antt =====
-- Requests on the handlers of the payment service and of the reservation service, with a jwt whose
-- tokens are the ids of two users.
use booking_venue.Base.{
  ℕ, ◌≡◌, refl, Bool, true, Option, none, some, [], ◌∷◌, filter, ◌==◌, if◌then◌else◌,
}
use booking_venue.Clock.HourMinute.{Text}
use booking_venue.Float64.{thousandths}
use booking_venue.Strings.{bytes, parse_uint, parse_digits, atoi, split}
use booking_venue.Payment.Repo.{first_by_id, get_payments_by_user_id, newest_first}
use booking_venue.Payment.Consumer.{message, read_failed}
use booking_venue.Payment.Consumer.Loop.{Turns}
use booking_venue.Payment.Transport.{
  HistoryQuery, PaymentHistoryResponse, handle_history, handle_get, handle_refund, write_error,
  not_found, internal, parse_uint_id, history_body, payment_to_response,
}
use booking_venue.Payment.Transport.Pages.{IsPage, handle_history-IsPage}
use booking_venue.Payment.Transport.Mapping.{handle_refund-missing}
use booking_venue.Reservation.Model.{admin, Claims}
use booking_venue.Reservation.Schedule.{replied}
use booking_venue.Reservation.Middleware.{Jwt, auth_middleware}
use booking_venue.Reservation.Transport.{Env, cancel_request, create_request, serve}
use booking_venue.Reservation.Transport.Frame.{
  KeepsOnError, cancelling, serve-keeps_bookings_on_error, serve-anyone,
}
use booking_venue.Examples.Data.{
  at, venue, full_venue, one_booking, request, claims, create_env, cancel_env, update_env, nine,
}
use booking_venue.Examples.Payments.{paid, pay_env, refund_env, refund_request, one_payment}

abbrev last_page : HistoryQuery
last_page = record { header_user = []; query_user = bytes "7"; limit = bytes "5"; offset = [] }

-- The page of a user with one payment.
abbrev the_page : PaymentHistoryResponse
the_page = record { payments = payment_to_response paid ∷ []; total = 1; count = 1 }

shown :
    handle_history none none last_page one_payment one_payment
    ≡ record { code = 200; body = history_body the_page }
unfolding handle_history parse_uint get_payments_by_user_id atoi filter newest_first
shown = refl

handle_history-IsPage_example : IsPage last_page one_payment one_payment the_page
handle_history-IsPage_example =
    handle_history-IsPage none none last_page one_payment one_payment the_page shown

handle_refund-missing_example :
    (handle_get none (bytes "9") one_payment ≡ write_error 404 not_found)
    × (handle_refund refund_env (bytes "9") (some refund_request) one_payment
        ≡ (write_error 500 internal, one_payment))
unfolding parse_uint_id parse_uint parse_digits first_by_id
handle_refund-missing_example =
    handle_refund-missing refund_env (bytes "9") 9 refund_request one_payment refl refl refl refl

-- A read fails, then a message without JSON comes, then the event.
abbrev pub before : Turns thousandths
before = (read_failed, pay_env, none) ∷ (message none, pay_env, none) ∷ []

-- The tokens `c` and `a` are those of a client and of an admin.
abbrev jwt : Jwt
jwt = record { parse = λ secret now token. read token }
  where
    read : Text → Option (Claims × Bool)
    read [] = none
    read (c ∷ s) =
        if c == b'c'
        then some (claims, true)
        else if c == b'a'
        then some (record { user_id = 1; role = admin }, true)
        else none

abbrev env : Env ℕ
env = record {
  now = at 8;
  create = create_env;
  cancel = cancel_env;
  update = update_env;
  read_fault = none;
  venue_reply = λ k. replied 200 venue;
  schedule_reply = λ k. replied 200 full_venue;
}

serve-keeps_bookings_on_error_example : KeepsOnError thousandths one_booking (
    serve thousandths jwt [] 0 env
      (bytes "Bearer x")
      (create_request (some request))
      one_booking
      one_booking)
serve-keeps_bookings_on_error_example =
    serve-keeps_bookings_on_error thousandths jwt [] 0 env (bytes "Bearer x")
      (create_request (some request)) one_booking one_booking

serve-anyone_example :
    serve thousandths jwt [] 0 env
      (bytes "Bearer c")
      (cancel_request (bytes "1") (some nine))
      one_booking
      one_booking
    ≡ serve thousandths jwt [] 0 env
        (bytes "Bearer a")
        (cancel_request (bytes "1") (some nine))
        one_booking
        one_booking
unfolding auth_middleware split
serve-anyone_example =
    serve-anyone thousandths jwt [] 0 env (bytes "Bearer c") (bytes "Bearer a")
      (cancel_request (bytes "1") (some nine)) one_booking one_booking claims
      (record { user_id = 1; role = admin }) (cancelling (bytes "1") (some nine)) refl refl
