-- ===== src/Venue/Dto/RoundTrip.antt =====
-- The conversions of a week's schedule there and back.
use booking_venue.Base.{
  All, ℕ, ◌≡◌, refl, true, false, Option, none, some, Result, ok, arith, Bool-cases, Option-cases,
  Result-cases, inl, inr, >>=-eq-ok, subst, if◌then◌else◌,
}
use booking_venue.Clock.{Time, time_of_day}
use booking_venue.Clock.HourMinute.{Text, parse, format}
use booking_venue.Venue.Model.Days.{IsDay}
use booking_venue.Venue.Model.{days_of, DaySchedule, Weekdays, VenueError}
use booking_venue.Venue.Validation.{validate_time}
use booking_venue.Venue.Validation.Agree.{today, validate_time-parse}
use booking_venue.Venue.Dto.{
  named_day, DayScheduleDto, WeekdaysDto, hour_minute, to_day_schedule_dto, from_day_schedule_dto,
  to_weekdays_dto, from_weekdays_dto,
}
use booking_venue.Venue.Dto.Times.{IsHourMinute, parse-format, validate_time-ok}

-- The text in the layout of a response: two digits for the hour.
abbrev pub normal_text : Text → Text
normal_text s = elim (parse s) [ none ↦ s | some t ↦ format t ]

abbrev pub normal_pointer : Option Text → Option Text
normal_pointer none = none
normal_pointer (some s) = some (normal_text s)

-- A day of a request as a response shows it.
abbrev pub normal_day : DayScheduleDto → DayScheduleDto
normal_day d =
    if d.enabled
    then record {
      enabled = true;
      start_time = normal_pointer d.start_time;
      end_time = normal_pointer d.end_time;
    }
    else record { enabled = false; start_time = none; end_time = none }

abbrev pub normal_week : WeekdaysDto → WeekdaysDto
normal_week w = record {
  monday = normal_day w.monday;
  tuesday = normal_day w.tuesday;
  wednesday = normal_day w.wednesday;
  thursday = normal_day w.thursday;
  friday = normal_day w.friday;
  saturday = normal_day w.saturday;
  sunday = normal_day w.sunday;
}

named_day-normal :
    (now : Time) (n : ℕ) (d : DayScheduleDto) (x : DaySchedule)
    → named_day now n d ≡ ok x
    → to_day_schedule_dto x ≡ normal_day d
unfolding from_day_schedule_dto to_day_schedule_dto
named_day-normal now n d x h = elim (Bool-cases d.enabled) [
  | inr off ↦ ground (arith, off)
  | inl on ↦ elim (Option-cases d.start_time) [
    | inl ns ↦ absurd (ground (arith, on, ns))
    | inr (s, hs) ↦ elim (Option-cases d.end_time) [
      | inl ne ↦ absurd (ground (arith, on, hs, ne))
      | inr (e, he) ↦ elim (Result-cases (validate_time now s)) [
        | inl (b, bs) ↦ absurd (ground (arith, on, hs, he, bs))
        | inr (t, ts) ↦ elim (Result-cases (validate_time now e)) [
          | inl (b, bs) ↦ absurd (ground (arith, on, hs, he, ts, bs))
          | inr (u, us) ↦
              let (p, ps, pt) = validate_time-ok now s t ts in
              let (q, qs, qt) = validate_time-ok now e u us in
              ground (arith, on, hs, he, ts, us, ps, pt, qs, qt)
        ]
      ]
    ]
  ]
]

ok_unique : {r : Result VenueError Weekdays} {a b : Weekdays} → r ≡ ok a → r ≡ ok b → a ≡ b
ok_unique h k = cc

-- What an accepted week's schedule is stored as is shown as the request, each time with two digits for
-- the hour and no times on a disabled day.
pub from_weekdays_dto-normal :
    (now : Time) (dto : WeekdaysDto) (w : Weekdays)
    → from_weekdays_dto now dto ≡ ok w
    → to_weekdays_dto w ≡ normal_week dto
unfolding from_weekdays_dto to_weekdays_dto
from_weekdays_dto-normal now dto w h =
    let (mo, a, h₁) = >>=-eq-ok (named_day now 0 dto.monday) _ h in
    let (tu, b, h₂) = >>=-eq-ok (named_day now 1 dto.tuesday) _ h₁ in
    let (we, c, h₃) = >>=-eq-ok (named_day now 2 dto.wednesday) _ h₂ in
    let (th, d, h₄) = >>=-eq-ok (named_day now 3 dto.thursday) _ h₃ in
    let (fr, e, h₅) = >>=-eq-ok (named_day now 4 dto.friday) _ h₄ in
    let (sa, f, h₆) = >>=-eq-ok (named_day now 5 dto.saturday) _ h₅ in
    let (su, g, h₇) = >>=-eq-ok (named_day now 6 dto.sunday) _ h₆ in
    let normal = named_day-normal now in
    subst (λ x. to_weekdays_dto x ≡ normal_week dto) (ok_unique refl h₇)
      (rw
        (
          normal 0 dto.monday mo a,
          normal 1 dto.tuesday tu b,
          normal 2 dto.wednesday we c,
          normal 3 dto.thursday th d,
          normal 4 dto.friday fr e,
          normal 5 dto.saturday sa f,
          normal 6 dto.sunday su g,
        )
        refl)

hour_minute-bounds : (t : Time) → IsHourMinute (hour_minute t)
unfolding time_of_day
hour_minute-bounds t = (omega arith, omega arith)

validate_time-format :
    (now t : Time) → validate_time now (format (hour_minute t)) ≡ ok (today now (hour_minute t))
validate_time-format now t =
    rw
      (
        validate_time-parse now (format (hour_minute t)),
        parse-format (hour_minute t) (hour_minute-bounds t),
      )
      refl

abbrev pub retime : Time → Option Time → Option Time
retime now none = none
retime now (some t) = some (today now (hour_minute t))

-- The same hours and minutes on today's date, in UTC.
abbrev pub redate : Time → DaySchedule → DaySchedule
redate now d = record {
  enabled = d.enabled;
  start_time = retime now d.start_time;
  end_time = retime now d.end_time;
}

abbrev pub redate_week : Time → Weekdays → Weekdays
redate_week now w = record {
  monday = redate now w.monday;
  tuesday = redate now w.tuesday;
  wednesday = redate now w.wednesday;
  thursday = redate now w.thursday;
  friday = redate now w.friday;
  saturday = redate now w.saturday;
  sunday = redate now w.sunday;
}

named_day-back :
    (now : Time) (n : ℕ) (d : DaySchedule)
    → IsDay d
    → named_day now n (to_day_schedule_dto d) ≡ ok (redate now d)
unfolding from_day_schedule_dto to_day_schedule_dto
named_day-back now n d (inl (on, hours)) =
    let (s, e, hs, he, l) = hours in
    ground (arith, on, hs, he, validate_time-format now s, validate_time-format now e)
named_day-back now n d (inr (off, ns, ne)) = ground (arith, off, ns, ne)

-- The week of a response, sent back as a request, is accepted and gives the same hours and minutes on
-- today's date, for every week that the check before a write lets through.
pub to_weekdays_dto-back :
    (now : Time) (w : Weekdays)
    → All IsDay (days_of w)
    → from_weekdays_dto now (to_weekdays_dto w) ≡ ok (redate_week now w)
unfolding from_weekdays_dto to_weekdays_dto
to_weekdays_dto-back now w h =
    let back = named_day-back now in
    rw
      (
        back 0 w.monday h.0,
        back 1 w.tuesday h.1.0,
        back 2 w.wednesday h.1.1.0,
        back 3 w.thursday h.1.1.1.0,
        back 4 w.friday h.1.1.1.1.0,
        back 5 w.saturday h.1.1.1.1.1.0,
        back 6 w.sunday h.1.1.1.1.1.1.0,
      )
      refl
