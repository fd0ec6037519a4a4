-- ===== src/Reservation/Schedule/Hours.antt =====
-- What the checks against the schedule mean on the venue's wall clock.
use booking_venue.Base.{
  ℕ, ◌+◌, ◌*◌, ◌≡◌, ◌≢◌, none, some, some_of_ne, true, false, ◌≤◌, ◌↔◌, ok, arith,
}
use booking_venue.Clock.{
  Time, hour, minute, before, after, local_day, time_of_day, date_of, weekday, IsSane,
}
use booking_venue.Clock.Calendar.{year_day_iff}
use booking_venue.Clock.HourMinute.{HourMinute, Text, parse}
use booking_venue.Reservation.Model.{DaySchedule, ResponsVenueServFull}
use booking_venue.Reservation.Schedule.{
  Reply, failed, replied, day_schedule, same_date, check_schedule_match, validate_schedule,
}

-- Nanoseconds after midnight.
abbrev pub length_of : HourMinute → ℕ
length_of t = t.hour * hour + t.minute * minute

-- On its own date, a time is before a time of day exactly when its wall clock is.
before-date_of :
    (t : Time) (m : HourMinute)
    → IsSane t
    → (before t (date_of t m.hour m.minute t.location) ≡ false) ↔ (length_of m ≤ time_of_day t)
unfolding date_of time_of_day
before-date_of t m h = ground arith

after-date_of :
    (t : Time) (m : HourMinute)
    → IsSane t
    → (after t (date_of t m.hour m.minute t.location) ≡ false) ↔ (time_of_day t ≤ length_of m)
unfolding date_of time_of_day
after-date_of t m h = ground arith

-- An enabled day whose two texts are times of day, with the interval between them on the wall clock.
pub record FitsDay (day : DaySchedule) (s e : Time) : Type 0 where
  pub start_text : Text
  pub end_text : Text
  pub opening : HourMinute
  pub closing : HourMinute
  pub enabled : day.enabled ≡ true
  pub start_given : day.start_time ≡ some start_text
  pub end_given : day.end_time ≡ some end_text
  pub start_parsed : parse start_text ≡ some opening
  pub end_parsed : parse end_text ≡ some closing
  pub not_before : length_of opening ≤ time_of_day s
  pub not_after : time_of_day e ≤ length_of closing

module _ (day : DaySchedule) (s e : Time) (hs : IsSane s) (he : IsSane e) where
  fits_of_match :
      {a b : Text} {o c : HourMinute}
      → day.start_time ≡ some a
      → day.end_time ≡ some b
      → parse a ≡ some o
      → parse b ≡ some c
      → check_schedule_match day s e ≡ ok tt
      → FitsDay day s e
  unfolding check_schedule_match
  fits_of_match {a} {b} {o} {c} ea eb eo ec h = record {
    start_text = a;
    end_text = b;
    opening = o;
    closing = c;
    enabled = ground arith;
    start_given = ea;
    end_given = eb;
    start_parsed = eo;
    end_parsed = ec;
    not_before = ground (arith, before-date_of s o hs);
    not_after = ground (arith, after-date_of e c he);
  }

  match_of_fits : FitsDay day s e → check_schedule_match day s e ≡ ok tt
  unfolding check_schedule_match
  match_of_fits f = ground (arith, before-date_of s f.opening hs, after-date_of e f.closing he)

  -- No working time can be read: the check fails.
  match_needs_texts :
      check_schedule_match day s e ≡ ok tt → (day.start_time ≢ none) × (day.end_time ≢ none)
  unfolding check_schedule_match
  match_needs_texts h = ground arith

  match_needs_times :
      {a b : Text}
      → day.start_time ≡ some a
      → day.end_time ≡ some b
      → check_schedule_match day s e ≡ ok tt
      → (parse a ≢ none) × (parse b ≢ none)
  unfolding check_schedule_match
  match_needs_times ea eb h = ground arith

  -- For a start and an end within the years 0 to 9999, the check passes exactly when the day is
  -- enabled, both of its texts are times of day, and the booking lies between them on the wall
  -- clock.
  pub check_schedule_match-iff_FitsDay : (check_schedule_match day s e ≡ ok tt) ↔ FitsDay day s e
  check_schedule_match-iff_FitsDay = (
    λ h.
        let (has_start, has_end) = match_needs_texts h in
        let (a, ea) = some_of_ne day.start_time has_start in
        let (b, eb) = some_of_ne day.end_time has_end in
        let (start_parses, end_parses) = match_needs_times ea eb h in
        let (o, eo) = some_of_ne (parse a) start_parses in
        let (c, ec) = some_of_ne (parse b) end_parses in fits_of_match ea eb eo ec h,
    match_of_fits,
  )

same_date_iff : (t u : Time) → (same_date t u ≡ true) ↔ (local_day t ≡ local_day u)
unfolding same_date
same_date_iff t u = ground (arith, year_day_iff t u)

module _ {F : Type 0} where
  pub validate_passed :
      (reply : Reply (ResponsVenueServFull F)) (s e : Time)
      → validate_schedule reply s e ≡ ok tt
      → (same_date s e ≡ true)
        × ((v : ResponsVenueServFull F) × (reply ≡ replied 200 v)
            × (check_schedule_match (day_schedule v.weekdays (weekday s)) s e ≡ ok tt))
  unfolding validate_schedule
  validate_passed (failed x) s e h = ground arith
  validate_passed (replied code v) s e h = (ground arith, (v, ground arith, ground arith))

  validate_passes :
      (v : ResponsVenueServFull F) (s e : Time)
      → same_date s e ≡ true
      → check_schedule_match (day_schedule v.weekdays (weekday s)) s e ≡ ok tt
      → validate_schedule (replied 200 v) s e ≡ ok tt
  unfolding validate_schedule
  validate_passes v s e d m = ground arith

-- For a start and an end within the years 0 to 9999, a booking passes the schedule's half of the
-- validation exactly when it is on one local day, the venue service answered with status 200, and
-- the booking fits the schedule of its weekday.
pub validate_schedule_iff :
    {F : Type 0} (reply : Reply (ResponsVenueServFull F)) (s e : Time)
    → IsSane s
    → IsSane e
    → (validate_schedule reply s e ≡ ok tt) ↔ (
        (local_day s ≡ local_day e)
        × ((v : ResponsVenueServFull F) × (reply ≡ replied 200 v)
            × FitsDay (day_schedule v.weekdays (weekday s)) s e))
validate_schedule_iff reply s e hs he = (
  λ h.
      let (d, (v, r, m)) = validate_passed reply s e h in
      ((same_date_iff s e).0 d, (v, r, (check_schedule_match-iff_FitsDay _ s e hs he).0 m)),
  λ h. rw (h.1.1) (
      validate_passes h.1.0 s e ((same_date_iff s e).1 h.0)
        ((check_schedule_match-iff_FitsDay _ s e hs he).1 h.1.2)),
)
