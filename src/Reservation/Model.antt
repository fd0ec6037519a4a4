-- ===== src/Reservation/Model.antt =====
-- The data of the reservation service: internal/models, internal/dto and internal/errors.
use booking_venue.Base.{ℕ, ℤ, Bool, true, false, Option, []}
use booking_venue.Clock.{Time}
use booking_venue.Clock.HourMinute.{Text}

-- `other` is any text that is none of the four.
pub data Status : Type 0 where
  pending confirmed cancelled completed : Status
  other : Text → Status

abbrev pub is_pending : Status → Bool
is_pending pending = true
is_pending _ = false

abbrev pub is_cancelled : Status → Bool
is_cancelled cancelled = true
is_cancelled _ = false

abbrev pub is_completed : Status → Bool
is_completed completed = true
is_completed _ = false

-- `status == ""`
abbrev pub is_empty : Status → Bool
is_empty (other []) = true
is_empty _ = false

pub data Role : Type 0 where
  owner client admin : Role
  unknown : Text → Role

abbrev pub is_owner : Role → Bool
is_owner owner = true
is_owner _ = false

abbrev pub is_client : Role → Bool
is_client client = true
is_client _ = false

abbrev pub is_admin : Role → Bool
is_admin admin = true
is_admin _ = false

pub record Claims : Type 0 where
  pub user_id : ℕ
  pub role : Role

-- `deleted` is whether `DeletedAt` is set. gorm fills in the two other times of `Base`, which no
-- code of the service reads.
pub record ReservationDetails (F : Type 0) : Type 0 where
  pub id : ℕ
  pub venue_id : ℕ
  pub client_id : ℕ
  pub owner_id : ℕ
  pub start_at : Time
  pub end_at : Time
  pub price : F
  pub duration : ℤ
  pub reason_for_cancel : Text
  pub status : Status
  pub deleted : Bool

pub record Reservation : Type 0 where
  pub start_at : Time
  pub end_at : Time
  pub status : Status

pub record ReservationCreate : Type 0 where
  pub venue_id : ℕ
  pub client_id : ℕ
  pub owner_id : ℕ
  pub start_at : Time
  pub end_at : Time
  pub status : Status

pub record ReservationUpdate (F : Type 0) : Type 0 where
  pub venue_id : Option ℕ
  pub client_id : Option ℕ
  pub owner_id : Option ℕ
  pub start_at : Option Time
  pub end_at : Option Time
  pub price : Option F

pub record BookingCreatedEvent (F : Type 0) : Type 0 where
  pub event_id : Text
  pub created_at : Time
  pub booking_id : ℕ
  pub venue_id : ℕ
  pub client_id : ℕ
  pub owner_id : ℕ
  pub start_at : Time
  pub end_at : Time
  pub price : F
  pub status : Status

pub record BookingCancelledEvent : Type 0 where
  pub event_id : Text
  pub created_at : Time
  pub booking_id : ℕ
  pub reason : Text
  pub status : Status

-- A message on one of the two Kafka topics.
pub data Message (F : Type 0) : Type 0 where
  booking_created : BookingCreatedEvent F → Message F
  booking_cancelled : BookingCancelledEvent → Message F

pub record ResponsVenueServ (F : Type 0) : Type 0 where
  pub id : ℕ
  pub owner_id : ℕ
  pub start_at : Time
  pub end_at : Time
  pub hour_price : F

pub record DaySchedule : Type 0 where
  pub enabled : Bool
  pub start_time : Option Text
  pub end_time : Option Text

pub record Weekdays : Type 0 where
  pub monday : DaySchedule
  pub tuesday : DaySchedule
  pub wednesday : DaySchedule
  pub thursday : DaySchedule
  pub friday : DaySchedule
  pub saturday : DaySchedule
  pub sunday : DaySchedule

pub record ResponsVenueServFull (F : Type 0) : Type 0 where
  pub id : ℕ
  pub owner_id : ℕ
  pub start_at : Time
  pub end_at : Time
  pub hour_price : F
  pub weekdays : Weekdays

pub record AvailableSlot : Type 0 where
  pub start_at : Time
  pub end_at : Time

-- The sentinel errors, then the errors that the code formats on the spot, then those of the
-- database, of the HTTP client and of the broker.
pub data ServiceError : Type 0 where
  err_client_id err_owner_id err_start_at_empty err_end_at_empty : ServiceError
  err_start_at_after_end_at err_start_at_in_past err_negative_price : ServiceError
  err_status_empty err_reservation_not_found err_invalid_status : ServiceError
  err_invalid_role err_cannot_cancel err_only_pending_reservations : ServiceError
  err_not_owner err_forbidden err_duration : ServiceError
  not_one_day day_disabled no_working_time : ServiceError
  bad_start_time bad_end_time outside_working_time booking_conflict : ServiceError
  venue_status : ℕ → ServiceError
  publish_failed : ℕ → ServiceError
  record_not_found : ServiceError
  database_error client_error broker_error : ServiceError
