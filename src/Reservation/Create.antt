-- ===== src/Reservation/Create.antt =====
-- `CreateReservation` and `ValidateReservation` of internal/service/booking-service.go.
pub mod Checks
pub mod Effects
pub mod Missing
use booking_venue.Base.{
  ℕ, Bool, not, ◌&&◌, Option, none, some, [], ◌∷◌, ◌++◌, leb, pos, ltb_ℤ, Result, ok, err, ◌>>=◌,
  ◌>>◌, check, fail_if,
}
use booking_venue.Clock.{Time, is_zero, before, sub, hour}
use booking_venue.Clock.HourMinute.{Text}
use booking_venue.Float64.{Float64}
use booking_venue.Reservation.Model.{
  is_empty, is_client, is_admin, Claims, ReservationDetails, ReservationCreate, BookingCreatedEvent,
  booking_created, ResponsVenueServ, ResponsVenueServFull, ServiceError, err_owner_id,
  err_start_at_empty, err_end_at_empty, err_start_at_after_end_at, err_start_at_in_past,
  err_status_empty, err_invalid_role, err_duration, publish_failed,
}
use booking_venue.Reservation.Repo.{Store, create}
use booking_venue.Reservation.Schedule.{Reply, get_venue, validate_schedule}
use booking_venue.Reservation.Conflict.{check_booking_conflicts}

-- What the world answers while one call runs: the clock, the two requests to the venue service (by
-- the venue's id), the database's faults in the order of the statements, and the broker.
pub record CreateEnv (F : Type 0) : Type 0 where
  pub now : Time
  pub event_id : Text
  pub event_time : Time
  pub schedule_reply : ℕ → Reply (ResponsVenueServFull F)
  pub venue_reply : ℕ → Reply (ResponsVenueServ F)
  pub validate_fault : Option ServiceError
  pub begin_fault : Option ServiceError
  pub count_fault : Option ServiceError
  pub insert_fault : Option ServiceError
  pub commit_fault : Option ServiceError
  pub publish_fault : Option ServiceError

-- The checks of the request alone, in their order. A `uint` is `<= 0` when it is 0.
unfoldable pub check_request : Time → ReservationCreate → Claims → Result ServiceError (Unit {0})
check_request now req claims = do
  fail_if (leb req.owner_id 0) err_owner_id
  fail_if (is_zero req.start_at) err_start_at_empty
  fail_if (is_zero req.end_at) err_end_at_empty
  fail_if (not (before req.start_at req.end_at)) err_start_at_after_end_at
  fail_if (before req.start_at now) err_start_at_in_past
  fail_if (is_empty req.status) err_status_empty
  fail_if (not (is_client claims.role) && not (is_admin claims.role)) err_invalid_role

module _ (float : Float64) where
  open float use {F, mul, hours}

  -- ValidateReservation, on the store as it is when its query runs.
  unfoldable pub validate_reservation :
      CreateEnv F → ReservationCreate → Store F → Result ServiceError (Unit {0})
  validate_reservation env req seen = do
    validate_schedule (env.schedule_reply req.venue_id) req.start_at req.end_at
    check_booking_conflicts env.validate_fault seen.reservations req.venue_id req.start_at
        req.end_at none

  -- The row to insert; gorm gives it its id later.
  unfoldable pub new_reservation :
      ReservationCreate → Claims → ResponsVenueServ F → ReservationDetails F
  new_reservation req claims venue = record {
    id = 0;
    venue_id = req.venue_id;
    client_id = claims.user_id;
    owner_id = req.owner_id;
    start_at = req.start_at;
    end_at = req.end_at;
    price = mul venue.hour_price (hours (sub req.end_at req.start_at));
    duration = sub req.end_at req.start_at;
    reason_for_cancel = [];
    status = req.status;
    deleted = Bool.false;
  }

  -- All that comes before the transaction.
  unfoldable pub prepare :
      CreateEnv F
      → ReservationCreate
      → Claims
      → Store F
      → Result ServiceError (ReservationDetails F)
  prepare env req claims seen = do
    check_request env.now req claims
    validate_reservation env req seen
    venue ← get_venue (env.venue_reply req.venue_id)
    let d = new_reservation req claims venue
    fail_if (ltb_ℤ d.duration (pos hour)) err_duration
    ok d

  -- The transaction's statements up to its commit; a failure rolls it back.
  unfoldable pub transaction :
      CreateEnv F → ReservationDetails F → Store F → Result ServiceError (Unit {0})
  transaction env d st = do
    check env.begin_fault
    check_booking_conflicts env.count_fault st.reservations d.venue_id d.start_at d.end_at none
    check env.insert_fault
    check env.commit_fault

  unfoldable pub created_event : CreateEnv F → ReservationDetails F → BookingCreatedEvent F
  created_event env d = record {
    event_id = env.event_id;
    created_at = env.event_time;
    booking_id = d.id;
    venue_id = d.venue_id;
    client_id = d.client_id;
    owner_id = d.owner_id;
    start_at = d.start_at;
    end_at = d.end_at;
    price = d.price;
    status = d.status;
  }

  -- The booking is committed; only the event is left.
  unfoldable pub publish_created :
      CreateEnv F
      → ReservationDetails F × Store F
      → Result ServiceError (ReservationDetails F) × Store F
  publish_created env (d, st) = elim env.publish_fault [
    | none ↦ (ok d, record st { outbox = st.outbox ++ booking_created (created_event env d) ∷ [] })
    | some _ ↦ (err (publish_failed d.id), st)
  ]

  -- The transaction and the event. The ids that the sequence skips after a failed insert or commit are
  -- not modelled.
  unfoldable pub insert_reservation :
      CreateEnv F
      → ReservationDetails F
      → Store F
      → Result ServiceError (ReservationDetails F) × Store F
  insert_reservation env d st = elim (transaction env d st) [
    | err e ↦ (err e, st)
    | ok _ ↦ publish_created env (create d st)
  ]

  -- `seen` is the store that the validation reads, `st` the one that the transaction works on: other
  -- requests may have run in between.
  unfoldable pub create_reservation :
      CreateEnv F
      → ReservationCreate
      → Claims
      → Store F
      → Store F
      → Result ServiceError (ReservationDetails F) × Store F
  create_reservation env req claims seen st = elim (prepare env req claims seen) [
    | err e ↦ (err e, st)
    | ok d ↦ insert_reservation env d st
  ]
