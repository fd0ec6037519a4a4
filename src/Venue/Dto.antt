-- ===== src/Venue/Dto.antt =====
-- internal/transport/dto.go of the venue service: the bodies of requests and responses, and their
-- conversions from and to the models.
pub mod RoundTrip
pub mod Times
use booking_venue.Base.{
  ℕ, suc, ◌/◌, ◌%◌, ℤ, Bool, not, ◌==◌, if◌then◌else◌, Option, none, some, List, [], ◌∷◌, map,
  Result, ok, err, ◌>>=◌, ◌>>◌, false, true,
}
use booking_venue.Clock.{Time, hour, minute, time_of_day}
use booking_venue.Clock.HourMinute.{HourMinute, Text, format}
use booking_venue.Venue.Model.{
  VenueType, DaySchedule, Weekdays, Venue, VenueError, times_required, bad_start_time, bad_end_time,
  day_error,
}
use booking_venue.Venue.Validation.{validate_time, in_error}

pub record DayScheduleDto : Type 0 where
  pub enabled : Bool
  pub start_time : Option Text
  pub end_time : Option Text

pub record WeekdaysDto : Type 0 where
  pub monday : DayScheduleDto
  pub tuesday : DayScheduleDto
  pub wednesday : DayScheduleDto
  pub thursday : DayScheduleDto
  pub friday : DayScheduleDto
  pub saturday : DayScheduleDto
  pub sunday : DayScheduleDto

pub record VenueDto : Type 0 where
  pub id : ℕ
  pub venue_type : VenueType
  pub owner_id : ℕ
  pub is_active : Bool
  pub hour_price : ℤ
  pub district : Text
  pub weekdays : WeekdaysDto

-- ScheduleDTO and ScheduleUpdateDTO
pub record ScheduleDto : Type 0 where
  pub weekdays : WeekdaysDto

-- The hour and the minute that `t.Format("15:04")` prints.
abbrev pub hour_minute : Time → HourMinute
hour_minute t = record { hour = time_of_day t / hour; minute = time_of_day t % hour / minute }

abbrev pub both_texts : Bool → Option Time → Option Time → DayScheduleDto
both_texts on (some s) (some e) =
    if on
    then record {
      enabled = on;
      start_time = some (format (hour_minute s));
      end_time = some (format (hour_minute e));
    }
    else record { enabled = on; start_time = none; end_time = none }
both_texts on _ _ = record { enabled = on; start_time = none; end_time = none }

-- toDayScheduleDTO
unfoldable pub to_day_schedule_dto : DaySchedule → DayScheduleDto
to_day_schedule_dto d = both_texts d.enabled d.start_time d.end_time

abbrev pub required_texts : Option Text → Option Text → Result VenueError (Text × Text)
required_texts (some s) (some e) = ok (s, e)
required_texts _ _ = err times_required

abbrev enabled_day : Time → Option Text → Option Text → Result VenueError DaySchedule
enabled_day now start_time end_time = do
  (s, e) ← required_texts start_time end_time
  t_start ← in_error bad_start_time (validate_time now s)
  t_end ← in_error bad_end_time (validate_time now e)
  ok (record { enabled = true; start_time = some t_start; end_time = some t_end })

-- fromDayScheduleDTO, at the time `now` of the server: the texts of a disabled day are not read.
unfoldable pub from_day_schedule_dto : Time → DayScheduleDto → Result VenueError DaySchedule
from_day_schedule_dto now d =
    if d.enabled
    then enabled_day now d.start_time d.end_time
    else ok (record { enabled = false; start_time = none; end_time = none })

-- The seven conversions that ToVenueDTO and ToScheduleDTO write out.
unfoldable pub to_weekdays_dto : Weekdays → WeekdaysDto
unfolding to_day_schedule_dto
to_weekdays_dto w = record {
  monday = to_day_schedule_dto w.monday;
  tuesday = to_day_schedule_dto w.tuesday;
  wednesday = to_day_schedule_dto w.wednesday;
  thursday = to_day_schedule_dto w.thursday;
  friday = to_day_schedule_dto w.friday;
  saturday = to_day_schedule_dto w.saturday;
  sunday = to_day_schedule_dto w.sunday;
}

-- ToVenueDTO
unfoldable pub to_venue_dto : Venue → VenueDto
to_venue_dto v = record {
  id = v.id;
  venue_type = v.venue_type;
  owner_id = v.owner_id;
  is_active = v.is_active;
  hour_price = v.hour_price;
  district = v.district;
  weekdays = to_weekdays_dto v.weekdays;
}

-- ToVenueDTOList
unfoldable pub to_venue_dto_list : List Venue → List VenueDto
unfolding to_venue_dto
to_venue_dto_list venues = map to_venue_dto venues

-- A day of the loop of fromWeekdaysDTO, with the name that the loop adds to its error.
abbrev pub named_day : Time → ℕ → DayScheduleDto → Result VenueError DaySchedule
named_day now n d = in_error (day_error n) (from_day_schedule_dto now d)

-- fromWeekdaysDTO. One `now` stands for the readings of the clock: they only give the date.
unfoldable pub from_weekdays_dto : Time → WeekdaysDto → Result VenueError Weekdays
from_weekdays_dto now w = do
  monday ← named_day now 0 w.monday
  tuesday ← named_day now 1 w.tuesday
  wednesday ← named_day now 2 w.wednesday
  thursday ← named_day now 3 w.thursday
  friday ← named_day now 4 w.friday
  saturday ← named_day now 5 w.saturday
  sunday ← named_day now 6 w.sunday
  ok (record {
    monday = monday;
    tuesday = tuesday;
    wednesday = wednesday;
    thursday = thursday;
    friday = friday;
    saturday = saturday;
    sunday = sunday;
  })

-- FromVenueDTO; an id that is absent from the body is 0.
unfoldable pub from_venue_dto : Time → VenueDto → Result VenueError Venue
unfolding from_weekdays_dto
from_venue_dto now dto = do
  weekdays ← from_weekdays_dto now dto.weekdays
  ok (record {
    id = if not (dto.id == 0) then dto.id else 0;
    deleted = false;
    venue_type = dto.venue_type;
    owner_id = dto.owner_id;
    is_active = dto.is_active;
    hour_price = dto.hour_price;
    district = dto.district;
    weekdays = weekdays;
  })

-- ToScheduleDTO
unfoldable pub to_schedule_dto : Venue → ScheduleDto
unfolding to_weekdays_dto
to_schedule_dto v = record { weekdays = to_weekdays_dto v.weekdays }

-- FromScheduleUpdateDTO
unfoldable pub from_schedule_update_dto : Time → ScheduleDto → Result VenueError Weekdays
unfolding from_weekdays_dto
from_schedule_update_dto now dto = from_weekdays_dto now dto.weekdays
