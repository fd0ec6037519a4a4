-- ===== src/Reservation/Update.antt =====
-- `ReservationUpdate` and `ValidateReservationUpdate` of internal/service/booking-service.go.
pub mod Effects
use booking_venue.Base.{
  ℕ, Bool, false, not, Option, none, some, List, leb, Result, ok, err, ◌>>=◌, ◌>>◌, check, fail_if,
}
use booking_venue.Clock.{Time, is_zero, before, sub}
use booking_venue.Float64.{Float64}
use booking_venue.Reservation.Model.{
  is_pending, ReservationDetails, ReservationUpdate, ResponsVenueServFull, ServiceError,
  err_client_id, err_owner_id, err_start_at_empty, err_end_at_empty, err_start_at_after_end_at,
  err_start_at_in_past, err_negative_price, err_only_pending_reservations,
}
use booking_venue.Reservation.Repo.{Store, ConflictRow, get_by_id, save}
use booking_venue.Reservation.Schedule.{Reply, validate_schedule}
use booking_venue.Reservation.Conflict.{check_booking_conflicts}

-- What the world answers while one call runs: the clock, the venue service, and the database. The call
-- has no transaction, so other requests may come between its statements: `again` is the store that the
-- second GetByID reads, `counted` the table whose conflicts are counted.
pub record UpdateEnv (F : Type 0) : Type 0 where
  pub now : Time
  pub schedule_reply : ℕ → Reply (ResponsVenueServFull F)
  pub read_fault : Option ServiceError
  pub again : Store F
  pub counted : Option (List ConflictRow)
  pub read_again_fault : Option ServiceError
  pub count_fault : Option ServiceError
  pub save_fault : Option ServiceError

-- `if p != nil { x = *p }`
abbrev pub given_or {ℓ} : {A : Type ℓ} → Option A → A → A
given_or none x = x
given_or (some y) x = y

-- `p != nil && test(*p)`
abbrev pub given_and {ℓ} : {A : Type ℓ} → Option A → (A → Bool) → Bool
given_and none test = false
given_and (some x) test = test x

module _ {F : Type 0} where
  -- The checks of the request's own fields and of the final interval.
  unfoldable pub check_update :
      Time → ReservationUpdate F → ReservationDetails F → Result ServiceError (Unit {0})
  check_update now upd d = do
    fail_if (given_and upd.client_id (λ k. leb k 0)) err_client_id
    fail_if (given_and upd.owner_id (λ k. leb k 0)) err_owner_id
    fail_if (given_and upd.start_at is_zero) err_start_at_empty
    fail_if (given_and upd.end_at is_zero) err_end_at_empty
    fail_if (not (before (given_or upd.start_at d.start_at) (given_or upd.end_at d.end_at)))
        err_start_at_after_end_at
    fail_if (before (given_or upd.start_at d.start_at) now) err_start_at_in_past

  -- ValidateReservationUpdate
  unfoldable pub validate_reservation_update :
      UpdateEnv F → ℕ → ReservationUpdate F → Result ServiceError (Unit {0})
  validate_reservation_update env id upd = do
    current ← get_by_id env.read_again_fault id env.again
    let venue = given_or upd.venue_id current.venue_id
    let start_at = given_or upd.start_at current.start_at
    let end_at = given_or upd.end_at current.end_at
    validate_schedule (env.schedule_reply venue) start_at end_at
    check_booking_conflicts env.count_fault env.counted venue start_at end_at (some id)

  -- The assignments to the loaded booking. Its duration is not among them.
  abbrev pub apply_update : ReservationUpdate F → ReservationDetails F → ReservationDetails F
  apply_update upd d = record d {
    venue_id = given_or upd.venue_id d.venue_id;
    client_id = given_or upd.client_id d.client_id;
    owner_id = given_or upd.owner_id d.owner_id;
    start_at = given_or upd.start_at d.start_at;
    end_at = given_or upd.end_at d.end_at;
    price = given_or upd.price d.price;
  }

module _ (float : Float64) where
  open float use {F, le_zero}

  -- Up to the write: the booking to save, or the error.
  unfoldable pub update_checked :
      UpdateEnv F → ℕ → ReservationUpdate F → Store F → Result ServiceError (ReservationDetails F)
  update_checked env id upd seen = do
    d ← get_by_id env.read_fault id seen
    check_update env.now upd d
    validate_reservation_update env id upd
    fail_if (given_and upd.price le_zero) err_negative_price
    fail_if (not (is_pending d.status)) err_only_pending_reservations
    check env.save_fault
    ok (apply_update upd d)

  -- `seen` is the store that is read first, `st` the one that is written. The duration is computed after
  -- the write, for the caller only.
  unfoldable pub reservation_update :
      UpdateEnv F
      → ℕ
      → ReservationUpdate F
      → Store F
      → Store F
      → Result ServiceError (ReservationDetails F) × Store F
  reservation_update env id upd seen st = elim (update_checked env id upd seen) [
    | err e ↦ (err e, st)
    | ok d ↦ (ok (record d { duration = sub d.end_at d.start_at }), save d st)
  ]
