-- ===== src/Examples/Contract.antt =====
-- A booking that leads to a payment, and one at a venue whose schedule comes from
-- the venue service.
use booking_venue.Base.{ℕ, ◌≡◌, ◌⊎◌, refl, none, some, [], ◌∷◌, ◌++◌, ok, err, pos, arith, filter}
use booking_venue.Float64.{thousandths}
use booking_venue.Strings.{bytes}
use booking_venue.Clock.{
  year, year_day, weekday, date_of, century, in_century, local_day, wall, year_day_of, year_of,
  year_of_4,
}
use booking_venue.Reservation.Model.{
  ReservationDetails, BookingCreatedEvent, booking_created, ServiceError,
}
use booking_venue.Reservation.Repo.{Store, create}
use booking_venue.Reservation.Create.{
  CreateEnv, created_event, create_reservation, prepare, check_request, validate_reservation,
  new_reservation, insert_reservation, transaction, publish_created,
}
use booking_venue.Reservation.Schedule.{
  validate_schedule, same_date, get_venue, accept, check_schedule_match, day_schedule,
  get_venue_schedule, working_time,
}
use booking_venue.Reservation.Conflict.{check_booking_conflicts, in_conflict, times_conflict}
use booking_venue.Clock.HourMinute.{parse, parse_colon, parse_minute}
use booking_venue.Reservation.Availability.{get_venue_availability}
use booking_venue.Venue.Transport.{handle_get}
use booking_venue.Payment.Model.{pending, Payment, record_not_found}
use booking_venue.Payment.Repo.{first_by_booking}
use booking_venue.Payment.Consumer.{message, consume_created}
use booking_venue.Contract.{schedule_reply, read_created}
use booking_venue.Contract.Closed.{create_reservation-closed}
use booking_venue.Contract.Paying.{create_reservation-pays}
use booking_venue.Examples.Data.{at, booking, one_booking, request, claims, create_env}
use booking_venue.Examples.Venues.{db, one_venue}
use booking_venue.Examples.Payments.{pay_env, no_payments}
use booking_venue.Examples.Handlers.{before}

-- The second booking of the venue, from 14:00 to 16:00.
abbrev second_booking : ReservationDetails ℕ
second_booking = record booking { id = 2; start_at = at 14; end_at = at 16 }

abbrev after_booking : Store ℕ
after_booking = record one_booking {
  details = booking ∷ second_booking ∷ [];
  next_id = 3;
  outbox = booking_created (created_event thousandths create_env second_booking) ∷ [];
}

booked :
    create_reservation thousandths create_env request claims one_booking one_booking
    ≡ (ok second_booking, after_booking)
unfolding create_reservation prepare check_request validate_reservation new_reservation
    insert_reservation transaction publish_created validate_schedule same_date get_venue accept
    check_schedule_match day_schedule get_venue_schedule working_time year year_day weekday date_of
    century in_century local_day wall year_day_of year_of year_of_4 parse parse_colon parse_minute
    check_booking_conflicts in_conflict times_conflict create filter created_event
booked = refl

create_reservation-pays_example :
    (event : BookingCreatedEvent ℕ) × (after_booking.outbox ≡ [] ++ booking_created event ∷ [])
    × (p : Payment) × (first_by_booking 2
          (consume_created thousandths
            (before ++ (message (some (read_created event)), pay_env, none) ∷ before)
            no_payments).payments
        ≡ ok p)
    × (p.user_id ≡ 7)
    × (p.amount ≡ pos 1000)
    × (p.status ≡ pending)
unfolding first_by_booking
create_reservation-pays_example =
    create_reservation-pays thousandths create_env request claims one_booking one_booking
      after_booking second_booking before before pay_env no_payments record_not_found booked
      (λ z. omega arith) (λ z. omega arith) (omega arith) refl (tt, (tt, tt)) (tt, (tt, tt)) refl

-- The venue service answers for the venue, in the two ways in which it is asked.
abbrev closed_env : CreateEnv ℕ
closed_env = record create_env {
  schedule_reply = λ k. schedule_reply 0 (handle_get db (bytes "1") one_venue);
}

create_reservation-closed_example :
    ((e : ServiceError) × (create_reservation thousandths closed_env request claims one_booking
          one_booking
        ≡ (err e, one_booking)))
    × ((get_venue_availability (closed_env.schedule_reply 1) none 1 (at 8) one_booking ≡ ok [])
        ⊎ ((e : ServiceError) × (get_venue_availability
                (closed_env.schedule_reply 1)
                none
                1
                (at 8)
                one_booking
              ≡ err e)))
create_reservation-closed_example =
    create_reservation-closed thousandths 0 db (bytes "1") one_venue closed_env request claims
      one_booking one_booking none (at 8) refl
