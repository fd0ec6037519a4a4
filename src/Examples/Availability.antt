-- ===== src/Examples/Availability.antt =====
-- The free slots of the Monday.
use booking_venue.Base.{◌≡◌, refl, inr, none, List, ok, All, arith, ◌≤◌, filter}
use booking_venue.Clock.{utc, weekday, date_of, year, year_day}
use booking_venue.Clock.HourMinute.{HourMinute, parse}
use booking_venue.Reservation.Model.{AvailableSlot}
use booking_venue.Reservation.Schedule.{replied, day_schedule, same_date}
use booking_venue.Reservation.Availability.{get_venue_availability}
use booking_venue.Reservation.Availability.Sweep.{Covered}
use booking_venue.Reservation.Availability.Slots.{Unbooked}
use booking_venue.Reservation.Availability.Answer.{
  blocking, IsOpen, IsFreeSlot, get_venue_availability-free, get_venue_availability_complete,
}
use booking_venue.Examples.Data.{at, nine, twenty_one, full_venue, one_booking}

abbrev opening_time : HourMinute
opening_time = record { hour = 9; minute = 0 }

abbrev closing_time : HourMinute
closing_time = record { hour = 21; minute = 0 }

monday_open : IsOpen (replied 200 full_venue) (at 0) opening_time closing_time
unfolding weekday day_schedule parse
monday_open = record {
  venue = full_venue;
  start_text = nine;
  end_text = twenty_one;
  replies = refl;
  enabled = refl;
  start_given = refl;
  end_given = refl;
  start_parsed = refl;
  end_parsed = refl;
}

get_venue_availability-free_example :
    (slots : List AvailableSlot) × (get_venue_availability
        (replied 200 full_venue)
        none
        1
        (at 0)
        one_booking
      ≡ ok slots)
    × All (IsFreeSlot (replied 200 full_venue) 1 (at 0) one_booking monday_open) slots
get_venue_availability-free_example =
    get_venue_availability-free (replied 200 full_venue) 1 (at 0) one_booking monday_open
      (ground arith)

unbooked : All (Unbooked (at 12).instant (at 14).instant) (blocking 1 (at 0) one_booking)
unfolding filter same_date year year_day
unbooked = (inr (ground arith), tt)

noon_start : (date_of (at 0) 9 0 utc).instant ≤ (at 12).instant
unfolding date_of
noon_start = omega arith

before_closing : (at 14).instant ≤ (date_of (at 0) 21 0 utc).instant
unfolding date_of
before_closing = omega arith

get_venue_availability_complete_example :
    (slots : List AvailableSlot) × (get_venue_availability
        (replied 200 full_venue)
        none
        1
        (at 0)
        one_booking
      ≡ ok slots)
    × Covered (at 12).instant (at 14).instant slots
get_venue_availability_complete_example =
    get_venue_availability_complete (replied 200 full_venue) 1 (at 0) one_booking monday_open
      (at 12).instant (at 14).instant noon_start (ground arith) before_closing unbooked
