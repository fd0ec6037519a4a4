-- ===== src/Reservation/Schedule.antt =====
-- The checks against the venue's schedule, of internal/service/booking-service.go: the two requests
-- to the venue service, the day's schedule and `checkScheduleMatch`.
pub mod Hours
use booking_venue.Base.{
  ℕ, zero, suc, Bool, not, ◌&&◌, ◌||◌, Option, none, some, ◌==◌, Result, ok, err, ◌>>=◌, ◌>>◌,
  fail_if,
}
use booking_venue.Clock.{Time, before, after, weekday, year, year_day, date_of}
use booking_venue.Clock.HourMinute.{HourMinute, Text, parse}
use booking_venue.Reservation.Model.{
  DaySchedule, Weekdays, ResponsVenueServ, ResponsVenueServFull, ServiceError, not_one_day,
  day_disabled, no_working_time, bad_start_time, bad_end_time, outside_working_time, venue_status,
}

-- What comes of `client.R().SetResult(&v).Get(url)`.
pub data Reply (V : Type 0) : Type 0 where
  failed : ServiceError → Reply V
  replied : ℕ → V → Reply V

-- An error of the client, or any status but 200, is an error.
unfoldable pub accept : {V : Type 0} → Reply V → Result ServiceError V
accept (failed e) = err e
accept (replied code v) = fail_if (not (code == 200)) (venue_status code) >> ok v

-- GetVenue
unfoldable pub get_venue :
    {F : Type 0} → Reply (ResponsVenueServ F) → Result ServiceError (ResponsVenueServ F)
unfolding accept
get_venue r = accept r

unfoldable pub get_venue_schedule :
    {F : Type 0} → Reply (ResponsVenueServFull F) → Result ServiceError (ResponsVenueServFull F)
unfolding accept
get_venue_schedule r = accept r

-- `switch t.Weekday()`
unfoldable pub day_schedule : Weekdays → ℕ → DaySchedule
day_schedule w zero = w.monday
day_schedule w (suc zero) = w.tuesday
day_schedule w (suc (suc zero)) = w.wednesday
day_schedule w (suc (suc (suc zero))) = w.thursday
day_schedule w (suc (suc (suc (suc zero)))) = w.friday
day_schedule w (suc (suc (suc (suc (suc zero))))) = w.saturday
day_schedule w _ = w.sunday

-- `t.Year() == u.Year() && t.YearDay() == u.YearDay()`
unfoldable pub same_date : Time → Time → Bool
same_date t u = year t == year u && year_day t == year_day u

-- The text behind a pointer, parsed; the caller says what error a bad text is.
abbrev pub parse_time : Text → ServiceError → Result ServiceError HourMinute
parse_time s e = elim (parse s) [ none ↦ err e | some t ↦ ok t ]

abbrev pub non_nil : Option Text → Option Text → Result ServiceError (Text × Text)
non_nil (some s) (some e) = ok (s, e)
non_nil _ _ = err no_working_time

-- The opening and the closing time of an enabled day.
unfoldable pub working_time : DaySchedule → Result ServiceError (HourMinute × HourMinute)
working_time day = do
  (s, e) ← non_nil day.start_time day.end_time
  t_start ← parse_time s bad_start_time
  t_end ← parse_time e bad_end_time
  ok (t_start, t_end)

unfoldable pub check_schedule_match : DaySchedule → Time → Time → Result ServiceError (Unit {0})
unfolding working_time
check_schedule_match day start_at end_at = do
  fail_if (not day.enabled) day_disabled
  (t_start, t_end) ← working_time day
  let venue_start = date_of start_at t_start.hour t_start.minute start_at.location
  let venue_end = date_of end_at t_end.hour t_end.minute end_at.location
  fail_if (before start_at venue_start || after end_at venue_end) outside_working_time

-- The first half of `ValidateReservation` and of `ValidateReservationUpdate`: one day, and within
-- that day's working time.
unfoldable pub validate_schedule :
    {F : Type 0} → Reply (ResponsVenueServFull F) → Time → Time → Result ServiceError (Unit {0})
unfolding get_venue_schedule day_schedule check_schedule_match
validate_schedule reply start_at end_at = do
  fail_if (not (same_date start_at end_at)) not_one_day
  venue ← get_venue_schedule reply
  check_schedule_match (day_schedule venue.weekdays (weekday start_at)) start_at end_at
