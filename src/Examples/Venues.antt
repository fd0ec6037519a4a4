-- ===== src/Examples/Venues.antt =====
-- A gym that is open from 9:00 to 21:00 from Monday to Saturday, and requests to change it.
use booking_venue.Base.{
  ℕ, ◌+◌, ◌*◌, ◌≡◌, refl, inl, inr, true, false, none, some, [], ◌∷◌, ok, All, arith, pos,
}
use booking_venue.Clock.{Time, utc, hour, day_length, date_of}
use booking_venue.Clock.HourMinute.{Text, parse}
use booking_venue.Strings.{parse_uint}
use booking_venue.Venue.Model.{gym, DaySchedule, Weekdays, Venue, validate_venue, days_of}
use booking_venue.Venue.Model.Days.{IsDay}
use booking_venue.Venue.Validation.{validate_time}
use booking_venue.Venue.Validation.Agree.{validate_time-parse, today_or_error}
use booking_venue.Venue.Dto.{
  DayScheduleDto, WeekdaysDto, from_day_schedule_dto, from_schedule_update_dto,
}
use booking_venue.Venue.Dto.RoundTrip.{normal_week}
use booking_venue.Venue.Repo.{
  Store, week_columns, create_venue, find_venue, first_venue, update_venue,
}
use booking_venue.Venue.Service.{Db, get_venue, get_schedule, create, update, update_schedule}
use booking_venue.Venue.Service.Effects.{Others}
use booking_venue.Venue.Service.Creating.{create-defaults}
use booking_venue.Venue.Transport.{
  json, schedule_body, handle_update_schedule, handle_get_schedule, parse_id, schedule_input,
}
use booking_venue.Venue.Transport.Schedules.{schedule-put_get}

abbrev pub now : Time
now = record { instant = 700_000 * day_length; location = utc }

abbrev at : ℕ → Time
at h = record { instant = 700_000 * day_length + h * hour; location = utc }

abbrev open_day : DaySchedule
open_day = record { enabled = true; start_time = some (at 9); end_time = some (at 21) }

abbrev closed_day : DaySchedule
closed_day = record { enabled = false; start_time = none; end_time = none }

abbrev week : Weekdays
week = record {
  monday = open_day;
  tuesday = open_day;
  wednesday = open_day;
  thursday = open_day;
  friday = open_day;
  saturday = open_day;
  sunday = closed_day;
}

abbrev hall : Venue
hall = record {
  id = 1;
  deleted = false;
  venue_type = gym;
  owner_id = 3;
  is_active = true;
  hour_price = pos 500;
  district = [];
  weekdays = week;
}

abbrev pub one_venue : Store
one_venue = record { venues = hall ∷ []; next_id = 2 }

-- A database that gives back the times that it was given.
abbrev pub db : Db
db = record { column = λ t. t; read_fault = none; write_fault = none; reread_fault = none }

abbrev nine : Text
nine = b'9' ∷ b':' ∷ b'0' ∷ b'0' ∷ []

abbrev twenty_one : Text
twenty_one = b'2' ∷ b'1' ∷ b':' ∷ b'0' ∷ b'0' ∷ []

abbrev open_dto : DayScheduleDto
open_dto = record { enabled = true; start_time = some nine; end_time = some twenty_one }

abbrev week_dto : WeekdaysDto
week_dto = record {
  monday = open_dto;
  tuesday = open_dto;
  wednesday = open_dto;
  thursday = open_dto;
  friday = open_dto;
  saturday = open_dto;
  sunday = record { enabled = false; start_time = none; end_time = none };
}

open_valid : IsDay open_day
open_valid = inl (refl, (at 9, at 21, refl, refl, ground arith))

week_valid : All IsDay (days_of week)
week_valid = (
  open_valid,
  (
    open_valid,
    (open_valid, (open_valid, (open_valid, (open_valid, (inr (refl, refl, refl), tt))))),
  ),
)

validate_time-parse_example : validate_time now nine ≡ today_or_error now nine (parse nine)
validate_time-parse_example = validate_time-parse now nine

-- The same hall at another price.
abbrev dearer : Venue
dearer = record hall { hour_price = pos 700 }

updated : update db 1 dearer one_venue ≡ ok (record one_venue { venues = dearer ∷ [] })
unfolding update validate_venue find_venue first_venue update_venue
updated = refl

-- A new hall whose Sunday is closed, and the same with an open Sunday.
abbrev new_hall : Venue
new_hall = record hall { id = 0 }

abbrev created_hall : Venue
created_hall = record hall {
  id = 2;
  weekdays = record week { sunday = record { enabled = true; start_time = none; end_time = none } };
}

abbrev two_venues : Venue → Store
two_venues v = record { venues = hall ∷ v ∷ []; next_id = 3 }

created : create db new_hall one_venue ≡ (ok created_hall, two_venues created_hall)
unfolding create create_venue validate_venue
created = refl

create-defaults_example :
    All IsDay (days_of week)
    × (true ≡ true)
    × All (λ d. d.enabled ≡ true) (days_of created_hall.weekdays)
    × (get_venue none 2 (two_venues created_hall)
        ≡ ok (record created_hall { weekdays = week_columns (λ t. t) created_hall.weekdays }))
    × Others 2 one_venue (two_venues created_hall)
create-defaults_example =
    create-defaults db new_hall created_hall one_venue (two_venues created_hall) created

abbrev first_id : Text
first_id = b'1' ∷ []

put :
    (handle_update_schedule db now first_id
      (some (record { weekdays = week_dto }))
      one_venue).0.code
    ≡ 200
unfolding handle_update_schedule parse_id schedule_input from_schedule_update_dto
    from_day_schedule_dto validate_time update_schedule find_venue first_venue update_venue
    validate_venue date_of get_schedule parse_uint
put = refl

schedule-put_get_example :
    handle_get_schedule db first_id
      (handle_update_schedule db now first_id (some (record { weekdays = week_dto })) one_venue).1
    ≡ json 200 (schedule_body (record { weekdays = normal_week week_dto }))
schedule-put_get_example =
    schedule-put_get db db now first_id (record { weekdays = week_dto }) one_venue (λ t. refl) refl
      put
