-- ===== src/Venue/Model.antt =====
-- internal/models/venue.go of the venue service, with the hook that gorm runs before a write, and
-- the errors of the service's layers.
pub mod Days
use booking_venue.Base.{
  ℕ, suc, ℤ, Bool, true, false, not, Option, none, some, List, [], ◌∷◌, Result, ok, err, ◌>>=◌,
  ◌>>◌, fail_if, if◌then◌else◌,
}
use booking_venue.Clock.{Time, before}
use booking_venue.Clock.HourMinute.{Text}

-- `other_type` is any text that is none of the five.
pub data VenueType : Type 0 where
  football basketball tennis gym swimming : VenueType
  other_type : Text → VenueType

-- IsValid
unfoldable pub is_valid : VenueType → Bool
is_valid (other_type _) = false
is_valid _ = true

pub record DaySchedule : Type 0 where
  pub enabled : Bool
  pub start_time : Option Time
  pub end_time : Option Time

pub record Weekdays : Type 0 where
  pub monday : DaySchedule
  pub tuesday : DaySchedule
  pub wednesday : DaySchedule
  pub thursday : DaySchedule
  pub friday : DaySchedule
  pub saturday : DaySchedule
  pub sunday : DaySchedule

-- `deleted` is whether the `DeletedAt` of `gorm.Model` is set; no code reads its two other times.
pub record Venue : Type 0 where
  pub id : ℕ
  pub deleted : Bool
  pub venue_type : VenueType
  pub owner_id : ℕ
  pub is_active : Bool
  pub hour_price : ℤ
  pub district : Text
  pub weekdays : Weekdays

-- The errors that name a day carry its number, Monday being 0.
pub data VenueError : Type 0 where
  err_venue_not_found record_not_found database_error : VenueError
  invalid_type : VenueType → VenueError
  missing_times start_not_before_end times_of_disabled : ℕ → VenueError
  bad_time_format bad_time_parts bad_hours bad_minutes : Text → VenueError
  hours_range minutes_range : ℕ → VenueError
  times_required : VenueError
  bad_start_time bad_end_time : VenueError → VenueError
  day_error : ℕ → VenueError → VenueError

-- The two pointers of an enabled day.
abbrev pub both_times : ℕ → Option Time → Option Time → Result VenueError (Time × Time)
both_times n (some s) (some e) = ok (s, e)
both_times n _ _ = err (missing_times n)

-- The two pointers of a disabled day.
abbrev pub no_times : ℕ → Option Time → Option Time → Result VenueError (Unit {0})
no_times n none none = ok tt
no_times n _ _ = err (times_of_disabled n)

-- The check of an enabled day.
abbrev pub ordered_times : ℕ → Option Time → Option Time → Result VenueError (Unit {0})
ordered_times n start_time end_time = do
  (s, e) ← both_times n start_time end_time
  fail_if (not (before s e)) (start_not_before_end n)

-- One turn of the loop of `validateVenue`.
unfoldable pub validate_day : ℕ → DaySchedule → Result VenueError (Unit {0})
validate_day n day =
    if day.enabled
    then ordered_times n day.start_time day.end_time
    else no_times n day.start_time day.end_time

-- The slice that the loop ranges over.
abbrev pub days : {D : Type 0} → D → D → D → D → D → D → D → List D
days mo tu we th fr sa su = mo ∷ tu ∷ we ∷ th ∷ fr ∷ sa ∷ su ∷ []

abbrev pub days_of : Weekdays → List DaySchedule
days_of w = days w.monday w.tuesday w.wednesday w.thursday w.friday w.saturday w.sunday

unfoldable pub validate_days : ℕ → List DaySchedule → Result VenueError (Unit {0})
unfolding validate_day
validate_days n [] = ok tt
validate_days n (d ∷ ds) = validate_day n d >> validate_days (suc n) ds

-- validateVenue, which is BeforeCreate and BeforeUpdate.
unfoldable pub validate_venue : Venue → Result VenueError (Unit {0})
unfolding validate_days is_valid
validate_venue v = do
  fail_if (not (is_valid v.venue_type)) (invalid_type v.venue_type)
  validate_days 0 (days_of v.weekdays)
