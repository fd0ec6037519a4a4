-- ===== src/Examples/Changes.antt =====
-- Cancellations, updates and histories of the booking.
use booking_venue.Base.{ℕ, ◌≡◌, ◌≢◌, refl, false, ◌||◌, [], ◌∷◌, ok, filter}
use booking_venue.Clock.{weekday, date_of, year, year_day}
use booking_venue.Clock.HourMinute.{parse}
use booking_venue.Float64.{thousandths}
use booking_venue.Reservation.Model.{pending, is_cancelled, is_completed, ReservationDetails}
use booking_venue.Reservation.Repo.{Store, find, get_by_id}
use booking_venue.Reservation.Schedule.{validate_schedule, same_date}
use booking_venue.Reservation.Conflict.{in_conflict, check_booking_conflicts}
use booking_venue.Reservation.Cancel.{cancel_row, cancel_checked, reservation_cancel}
use booking_venue.Reservation.Cancel.Effects.{reservation_cancel-ok}
use booking_venue.Reservation.Update.{
  reservation_update, update_checked, check_update, validate_reservation_update,
}
use booking_venue.Reservation.Update.Effects.{
  IsUpdated, reservation_update-IsUpdated, reservation_update-revives,
}
use booking_venue.Reservation.History.{History, start, next, cancel, History-final}
use booking_venue.Examples.Data.{nine, booking, one_booking, cancel_env, update_env, change, moved}

cancelled_booking :
    (reservation_cancel cancel_env 1 nine one_booking one_booking).0 ≡ ok (cancel_row nine booking)
unfolding reservation_cancel cancel_checked get_by_id find
cancelled_booking = refl

reservation_cancel-ok_example :
    let st' = (reservation_cancel cancel_env 1 nine one_booking one_booking).1 in
    (old : ReservationDetails ℕ) × (find 1 one_booking.details ≡ ok old)
    × ((is_cancelled old.status || is_completed old.status) ≡ false)
    × (cancel_row nine booking ≡ cancel_row nine old)
    × (find 1 st'.details ≡ ok (cancel_row nine booking))
    × ((j : ℕ) → j ≢ 1 → find j st'.details ≡ find j one_booking.details)
reservation_cancel-ok_example =
    reservation_cancel-ok cancel_env 1 nine one_booking (cancel_row nine booking) cancelled_booking

updated_booking :
    (reservation_update thousandths update_env 1 change one_booking one_booking).0 ≡ ok moved
unfolding reservation_update update_checked get_by_id find check_update validate_reservation_update
    validate_schedule check_booking_conflicts same_date year year_day weekday parse date_of filter
    in_conflict
updated_booking = refl

found_booking : find 1 one_booking.details ≡ ok booking
unfolding find
found_booking = refl

reservation_update-IsUpdated_example :
    IsUpdated thousandths update_env 1 change one_booking one_booking
      (reservation_update thousandths update_env 1 change one_booking one_booking).1
      moved
reservation_update-IsUpdated_example =
    reservation_update-IsUpdated thousandths update_env 1 change one_booking one_booking moved
      updated_booking

abbrev cancelled_meanwhile : Store ℕ
cancelled_meanwhile = record one_booking { details = cancel_row nine booking ∷ [] }

revived_booking :
    (reservation_update thousandths update_env 1 change one_booking cancelled_meanwhile).0
    ≡ ok moved
unfolding reservation_update update_checked get_by_id find check_update validate_reservation_update
    validate_schedule check_booking_conflicts same_date year year_day weekday parse date_of filter
    in_conflict
revived_booking = refl

reservation_update-revives_example :
    (row : ReservationDetails ℕ) × (find 1
        (reservation_update thousandths update_env 1 change one_booking
          cancelled_meanwhile).1.details
      ≡ ok row)
    × (row.status ≡ pending)
reservation_update-revives_example =
    reservation_update-revives thousandths update_env 1 change one_booking cancelled_meanwhile moved
      revived_booking

abbrev cancelled_store : Store ℕ
cancelled_store = (reservation_cancel cancel_env 1 nine one_booking one_booking).1

cancel-History : History thousandths one_booking cancelled_store
cancel-History = next start (cancel cancel_env 1 nine refl)

again :
    History thousandths cancelled_meanwhile
      (reservation_cancel cancel_env 1 [] cancelled_meanwhile cancelled_meanwhile).1
again = next start (cancel cancel_env 1 [] refl)

found_cancelled : find 1 cancelled_meanwhile.details ≡ ok (cancel_row nine booking)
unfolding find
found_cancelled = refl

History-final_example :
    find 1 (reservation_cancel cancel_env 1 [] cancelled_meanwhile cancelled_meanwhile).1.details
    ≡ ok (cancel_row nine booking)
History-final_example =
    History-final thousandths 1 (cancel_row nine booking) again found_cancelled refl
