-- ===== src/Examples/Data.antt =====
-- A venue that is open from 9:00 to 21:00 every day, a Monday, a booking on it, and requests of
-- its clients.
use booking_venue.Base.{ℕ, ◌+◌, ◌*◌, true, false, none, some, [], ◌∷◌, pos}
use booking_venue.Clock.{Time, utc, hour, day_length}
use booking_venue.Clock.HourMinute.{Text}
use booking_venue.Reservation.Model.{
  pending, client, Claims, ReservationDetails, ReservationCreate, ReservationUpdate, DaySchedule,
  ResponsVenueServ, ResponsVenueServFull,
}
use booking_venue.Reservation.Repo.{Store, ConflictRow}
use booking_venue.Reservation.Schedule.{replied}
use booking_venue.Reservation.Create.{CreateEnv}
use booking_venue.Reservation.Cancel.{CancelEnv}
use booking_venue.Reservation.Update.{UpdateEnv}

-- An hour of the Monday.
abbrev pub at : ℕ → Time
at h = record { instant = 700_000 * day_length + h * hour; location = utc }

abbrev pub nine : Text
nine = b'9' ∷ b':' ∷ b'0' ∷ b'0' ∷ []

abbrev pub twenty_one : Text
twenty_one = b'2' ∷ b'1' ∷ b':' ∷ b'0' ∷ b'0' ∷ []

abbrev pub open_day : DaySchedule
open_day = record { enabled = true; start_time = some nine; end_time = some twenty_one }

abbrev pub venue : ResponsVenueServ ℕ
venue = record { id = 1; owner_id = 3; start_at = at 9; end_at = at 21; hour_price = 500_000 }

abbrev pub full_venue : ResponsVenueServFull ℕ
full_venue = record {
  id = 1;
  owner_id = 3;
  start_at = at 9;
  end_at = at 21;
  hour_price = 500_000;
  weekdays = record {
    monday = open_day;
    tuesday = open_day;
    wednesday = open_day;
    thursday = open_day;
    friday = open_day;
    saturday = open_day;
    sunday = open_day;
  };
}

abbrev pub booking : ReservationDetails ℕ
booking = record {
  id = 1;
  venue_id = 1;
  client_id = 7;
  owner_id = 3;
  start_at = at 10;
  end_at = at 12;
  price = 1_000_000;
  duration = pos (2 * hour);
  reason_for_cancel = [];
  status = pending;
  deleted = false;
}

-- A booking's row as the conflict query would see it.
abbrev pub row_of : ReservationDetails ℕ → ConflictRow
row_of d = record { id = d.id; venue_id = d.venue_id; start_at = d.start_at; end_at = d.end_at }

abbrev pub one_booking : Store ℕ
one_booking = record {
  details = booking ∷ [];
  next_id = 2;
  reservations = some (row_of booking ∷ []);
  outbox = [];
}

abbrev pub migrated : Store ℕ
migrated = record one_booking { reservations = none }

abbrev pub request : ReservationCreate
request = record {
  venue_id = 1;
  client_id = 7;
  owner_id = 3;
  start_at = at 14;
  end_at = at 16;
  status = pending;
}

abbrev pub claims : Claims
claims = record { user_id = 7; role = client }

abbrev pub create_env : CreateEnv ℕ
create_env = record {
  now = at 8;
  event_id = [];
  event_time = at 8;
  schedule_reply = λ _. replied 200 full_venue;
  venue_reply = λ _. replied 200 venue;
  validate_fault = none;
  begin_fault = none;
  count_fault = none;
  insert_fault = none;
  commit_fault = none;
  publish_fault = none;
}

abbrev pub cancel_env : CancelEnv
cancel_env = record {
  event_id = [];
  event_time = at 8;
  read_fault = none;
  save_fault = none;
  publish_fault = none;
}

abbrev pub update_env : UpdateEnv ℕ
update_env = record {
  now = at 8;
  schedule_reply = λ _. replied 200 full_venue;
  read_fault = none;
  again = one_booking;
  counted = one_booking.reservations;
  read_again_fault = none;
  count_fault = none;
  save_fault = none;
}

-- The booking is moved to the hours from 13 to 16.
abbrev pub change : ReservationUpdate ℕ
change = record {
  venue_id = none;
  client_id = none;
  owner_id = none;
  start_at = some (at 13);
  end_at = some (at 16);
  price = none;
}

abbrev pub moved : ReservationDetails ℕ
moved = record booking { start_at = at 13; end_at = at 16; duration = pos (3 * hour) }
