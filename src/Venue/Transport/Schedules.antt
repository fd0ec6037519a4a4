-- ===== src/Venue/Transport/Schedules.antt =====
-- A week's schedule that is put and then read.
use booking_venue.Base.{
  ℕ, ◌≡◌, refl, Option, none, some, ok, arith, Result-cases, Option-cases, inl, inr, ap, ◌∙◌,
}
use booking_venue.Clock.{Time}
use booking_venue.Clock.HourMinute.{Text}
use booking_venue.Venue.Model.{DaySchedule, Weekdays, Venue}
use booking_venue.Venue.Dto.{
  ScheduleDto, hour_minute, to_day_schedule_dto, to_weekdays_dto, to_schedule_dto,
  from_weekdays_dto, from_schedule_update_dto,
}
use booking_venue.Venue.Dto.RoundTrip.{normal_week, from_weekdays_dto-normal}
use booking_venue.Venue.Repo.{Store, week_columns, day_columns, set_columns}
use booking_venue.Venue.Service.{Db, get_schedule, update_schedule}
use booking_venue.Venue.Service.Effects.{update_schedule-effect}
use booking_venue.Venue.Transport.{
  parse_id, schedule_input, handle_update_schedule, handle_get_schedule, schedule_body, json,
  schedule_reply,
}

-- A column of type `time` keeps the time of the day to the minute.
abbrev pub KeepsMinutes : (Time → Time) → Type 0
KeepsMinutes column = (t : Time) → hour_minute (column t) ≡ hour_minute t

day_columns-dto :
    (column : Time → Time)
    → KeepsMinutes column
    → (d : DaySchedule) → to_day_schedule_dto (day_columns column d) ≡ to_day_schedule_dto d
unfolding to_day_schedule_dto
day_columns-dto column keeps d = elim (Option-cases d.start_time) [
  | inl ns ↦ rw ns refl
  | inr (s, hs) ↦ elim (Option-cases d.end_time) [
    | inl ne ↦ rw (hs, ne) refl
    | inr (e, he) ↦ rw (hs, he, keeps s, keeps e) refl
  ]
]

week_columns-dto :
    (column : Time → Time)
    → KeepsMinutes column
    → (w : Weekdays) → to_weekdays_dto (week_columns column w) ≡ to_weekdays_dto w
unfolding to_weekdays_dto week_columns
week_columns-dto column keeps w =
    let same = day_columns-dto column keeps in
    rw
      (
        same w.monday,
        same w.tuesday,
        same w.wednesday,
        same w.thursday,
        same w.friday,
        same w.saturday,
        same w.sunday,
      )
      refl

schedule_input-ok :
    (now : Time) (dto : ScheduleDto) (w : Weekdays)
    → schedule_input now (some dto) ≡ ok w
    → from_weekdays_dto now dto.weekdays ≡ ok w
unfolding schedule_input from_schedule_update_dto
schedule_input-ok now dto w h = elim (Result-cases (from_weekdays_dto now dto.weekdays)) [
  | inl (e, bad) ↦ absurd (cc (rw bad at h))
  | inr (x, good) ↦ cc (rw good at h, good)
]

-- The inversion of a response 200 to a PUT.
put_ok :
    (db : Db) (now : Time) (id : Text) (b : Option ScheduleDto) (st : Store)
    → (handle_update_schedule db now id b st).0.code ≡ 200
    → (k : ℕ) × (w : Weekdays) × (parse_id id ≡ ok k)
      × (schedule_input now b ≡ ok w)
      × (update_schedule db k w st ≡ ok (handle_update_schedule db now id b st).1)
unfolding handle_update_schedule
put_ok db now id b st h = elim (Result-cases (parse_id id)) [
  | inl (e, bad) ↦ absurd (ground (arith, bad))
  | inr (k, pk) ↦ elim (Result-cases (schedule_input now b)) [
    | inl (e, bad) ↦ absurd (ground (arith, pk, bad))
    | inr (w, pw) ↦ elim (Result-cases (update_schedule db k w st)) [
      | inl (e, bad) ↦ absurd (ground (arith, pk, pw, bad))
      | inr (st', done) ↦ (k, w, pk, pw, ground (arith, pk, pw, done))
    ]
  ]
]

get_ok :
    (db : Db) (id : Text) (k : ℕ) (st : Store) (v : Venue)
    → parse_id id ≡ ok k
    → db.read_fault ≡ none
    → get_schedule none k st ≡ ok v
    → handle_get_schedule db id st ≡ schedule_reply (ok v)
unfolding handle_get_schedule
get_ok db id k st v pk ready read = rw (pk, handle_get_schedule, ready, read) refl

-- After a PUT of a schedule that is answered with 200, a GET of the same id returns 200 and the schedule
-- that was put, each time with two digits for the hour and no times on a disabled day, where the read
-- does not fail and the database's column keeps a time to the minute.
pub schedule-put_get :
    (db db' : Db) (now : Time) (id : Text) (dto : ScheduleDto) (st : Store)
    → KeepsMinutes db.column
    → db'.read_fault ≡ none
    → (handle_update_schedule db now id (some dto) st).0.code ≡ 200
    → handle_get_schedule db' id (handle_update_schedule db now id (some dto) st).1
      ≡ json 200 (schedule_body (record { weekdays = normal_week dto.weekdays }))
unfolding handle_get_schedule to_schedule_dto set_columns
schedule-put_get db db' now id dto st keeps ready h =
    let (k, w, pk, pw, done) = put_ok db now id (some dto) st h in
    let st' = (handle_update_schedule db now id (some dto) st).1 in
    let (valid, (v, before, read), others) = update_schedule-effect db k w st st' done in
    let shown : to_weekdays_dto (week_columns db.column w) ≡ normal_week dto.weekdays =
      week_columns-dto db.column keeps w
      ∙ from_weekdays_dto-normal now dto.weekdays w (schedule_input-ok now dto w pw) in
    get_ok db' id k st' _ pk ready read
    ∙ ap (λ x. json 200 (schedule_body (record { weekdays = x }))) shown
