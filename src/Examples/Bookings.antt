-- ===== src/Examples/Bookings.antt =====
-- Conflicts, the schedule, new bookings and the list of a venue's bookings.
use booking_venue.Base.{ℕ, ◌≡◌, refl, ◌↔◌, ◌⊎◌, none, some, [], ◌∷◌, ok, err, All, arith, filter}
use booking_venue.Clock.{local_day, weekday, IsSane}
use booking_venue.Float64.{thousandths}
use booking_venue.Reservation.Model.{
  owner, admin, Claims, ResponsVenueServ, ResponsVenueServFull, ServiceError,
}
use booking_venue.Reservation.Repo.{is_of_venue, get_venue_bookings}
use booking_venue.Reservation.Schedule.{replied, validate_schedule, day_schedule, get_venue}
use booking_venue.Reservation.Schedule.Hours.{FitsDay, validate_schedule_iff}
use booking_venue.Reservation.Conflict.{check_booking_conflicts}
use booking_venue.Reservation.Conflict.Overlap.{IsClear, check_booking_conflicts-iff_IsClear}
use booking_venue.Reservation.Create.{create_reservation}
use booking_venue.Reservation.Create.Effects.{Ends, create_reservation-Ends}
use booking_venue.Reservation.Create.Missing.{create_reservation-missing_table}
use booking_venue.Reservation.Query.{list_venue_bookings, list_venue_bookings-authorized}
use booking_venue.Examples.Data.{
  row_of, at, venue, full_venue, booking, one_booking, migrated, request, claims, create_env,
}

check_booking_conflicts-iff_IsClear_example :
    (check_booking_conflicts none (some (row_of booking ∷ [])) 1 (at 12) (at 14) none ≡ ok tt)
    ↔ All (IsClear 1 (at 12) (at 14) none) (row_of booking ∷ [])
check_booking_conflicts-iff_IsClear_example =
    check_booking_conflicts-iff_IsClear (row_of booking ∷ []) 1 (at 12) (at 14) none (ground arith)
      (ground arith, tt)

at-IsSane : (h : ℕ) → IsSane (at h)
at-IsSane h = record { late = omega arith; east_short = omega arith; west_short = omega arith }

validate_schedule_iff_example :
    (validate_schedule (replied 200 full_venue) (at 10) (at 12) ≡ ok tt) ↔ (
      (local_day (at 10) ≡ local_day (at 12))
      × ((v : ResponsVenueServFull ℕ) × (replied 200 full_venue ≡ replied 200 v)
          × FitsDay (day_schedule v.weekdays (weekday (at 10))) (at 10) (at 12)))
validate_schedule_iff_example =
    validate_schedule_iff (replied 200 full_venue) (at 10) (at 12) (at-IsSane 10) (at-IsSane 12)

create_reservation-Ends_example :
    Ends thousandths create_env request claims one_booking one_booking
      (create_reservation thousandths create_env request claims one_booking one_booking)
create_reservation-Ends_example =
    create_reservation-Ends thousandths create_env request claims one_booking one_booking

create_reservation-missing_table_example :
    (e : ServiceError) × (create_reservation thousandths create_env request claims migrated migrated
      ≡ (err e, migrated))
create_reservation-missing_table_example =
    create_reservation-missing_table thousandths create_env request claims migrated migrated refl

abbrev owner_claims : Claims
owner_claims = record { user_id = 3; role = owner }

shown_bookings :
    list_venue_bookings (replied 200 venue) none 1 (some owner_claims) one_booking
    ≡ ok (booking ∷ [])
unfolding list_venue_bookings get_venue get_venue_bookings filter
shown_bookings = refl

list_venue_bookings-authorized_example :
    (v : ResponsVenueServ ℕ) × (replied 200 venue ≡ replied 200 v)
    × ((owner ≡ admin) ⊎ ((owner ≡ owner) × (v.owner_id ≡ 3)))
    × (booking ∷ [] ≡ filter (is_of_venue 1) one_booking.details)
list_venue_bookings-authorized_example =
    list_venue_bookings-authorized (replied 200 venue) none 1 owner_claims one_booking
      shown_bookings
