-- ===== src/Reservation/Availability.antt =====
-- `GetVenueAvailability` of internal/service/booking-service.go: the free slots of a venue on a date.
pub mod Sweep
pub mod Slots
pub mod Answer
use booking_venue.Base.{
  ℕ, Bool, not, ◌&&◌, ◌||◌, Option, List, [], ◌∷◌, ◌==◌, leb_ℤ, pos, if◌then◌else◌, filter, Result,
  ok, err, ◌>>=◌, ◌>>◌,
}
use booking_venue.Clock.{Time, utc, hour, before, after, sub, year, year_day, weekday, date_of}
use booking_venue.Reservation.Model.{
  is_cancelled, ReservationDetails, AvailableSlot, ResponsVenueServFull, DaySchedule, ServiceError,
}
use booking_venue.Reservation.Repo.{Store, get_venue_bookings}
use booking_venue.Reservation.Schedule.{
  Reply, get_venue_schedule, day_schedule, same_date, working_time,
}

-- The local type `interval`.
pub record Interval : Type 0 where
  pub start : Time
  pub stop : Time

-- `if s.Before(t) { s = t }` and `if e.After(t) { e = t }`
abbrev pub at_least : Time → Time → Time
at_least s t = if before s t then t else s

abbrev pub at_most : Time → Time → Time
at_most e t = if after e t then t else e

module _ {F : Type 0} where
  -- The `continue`s of the loop over the bookings, negated.
  unfoldable pub is_relevant : Time → Time → Time → ReservationDetails F → Bool
  unfolding same_date
  is_relevant date venue_start venue_end b =
      not (is_cancelled b.status)
      && same_date b.start_at date
      && not (before b.end_at venue_start || after b.start_at venue_end)

  unfoldable pub busy_intervals : Time → Time → Time → List (ReservationDetails F) → List Interval
  busy_intervals date venue_start venue_end [] = []
  busy_intervals date venue_start venue_end (b ∷ bs) =
      let rest = busy_intervals date venue_start venue_end bs in
      if is_relevant date venue_start venue_end b
      then record { start = at_least b.start_at venue_start; stop = at_most b.end_at venue_end }
        ∷ rest
      else rest

-- `sort.Slice` by start. Which of two intervals with one start comes first is not specified; the
-- slots below do not depend on it.
unfoldable pub insert_by_start : Interval → List Interval → List Interval
insert_by_start i [] = i ∷ []
insert_by_start i (j ∷ js) = if before j.start i.start then j ∷ insert_by_start i js else i ∷ j ∷ js

unfoldable pub sort_by_start : List Interval → List Interval
unfolding insert_by_start
sort_by_start [] = []
sort_by_start (i ∷ is) = insert_by_start i (sort_by_start is)

-- The loop over the sorted intervals with `prev`, and the last slot.
unfoldable pub free_slots : Time → Time → List Interval → List AvailableSlot
free_slots prev venue_end [] =
    if before prev venue_end then record { start_at = prev; end_at = venue_end } ∷ [] else []
free_slots prev venue_end (i ∷ is) =
    let rest = free_slots (if after i.stop prev then i.stop else prev) venue_end is in
    if after i.start prev then record { start_at = prev; end_at = i.start } ∷ rest else rest

abbrev pub is_long : AvailableSlot → Bool
is_long s = leb_ℤ (pos hour) (sub s.end_at s.start_at)

-- From the busy intervals to the answer, with the branch for no interval at all.
unfoldable pub slots_between : Time → Time → List Interval → List AvailableSlot
unfolding free_slots
slots_between venue_start venue_end [] =
    if leb_ℤ (pos hour) (sub venue_end venue_start)
    then record { start_at = venue_start; end_at = venue_end } ∷ []
    else []
slots_between venue_start venue_end (i ∷ is) =
    filter is_long (free_slots venue_start venue_end (i ∷ is))

module _ {F : Type 0} where
  -- The slots of an enabled day.
  unfoldable pub day_slots :
      DaySchedule
      → Option ServiceError
      → ℕ
      → Time
      → Store F
      → Result ServiceError (List AvailableSlot)
  unfolding working_time
  day_slots day fault venue_id date st = do
    (t_start, t_end) ← working_time day
    let venue_start = date_of date t_start.hour t_start.minute utc
    let venue_end = date_of date t_end.hour t_end.minute utc
    bookings ← get_venue_bookings fault venue_id st
    let intervals = busy_intervals date venue_start venue_end bookings
    ok (slots_between venue_start venue_end (sort_by_start intervals))

  unfoldable pub get_venue_availability :
      Reply (ResponsVenueServFull F)
      → Option ServiceError
      → ℕ
      → Time
      → Store F
      → Result ServiceError (List AvailableSlot)
  get_venue_availability reply fault venue_id date st = do
    venue ← get_venue_schedule reply
    let day = day_schedule venue.weekdays (weekday date)
    if not day.enabled then ok [] else day_slots day fault venue_id date st
