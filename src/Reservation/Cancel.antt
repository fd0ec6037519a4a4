-- ===== src/Reservation/Cancel.antt =====
-- `ReservationCancel` of internal/service/booking-service.go.
pub mod Effects
use booking_venue.Base.{
  ℕ, ◌||◌, Option, none, some, [], ◌∷◌, ◌++◌, Result, ok, err, ◌>>=◌, ◌>>◌, check, fail_if,
}
use booking_venue.Clock.{Time}
use booking_venue.Clock.HourMinute.{Text}
use booking_venue.Reservation.Model.{
  cancelled, is_cancelled, is_completed, ReservationDetails, BookingCancelledEvent,
  booking_cancelled, ServiceError, err_cannot_cancel,
}
use booking_venue.Reservation.Repo.{Store, get_by_id, save}

pub record CancelEnv : Type 0 where
  pub event_id : Text
  pub event_time : Time
  pub read_fault : Option ServiceError
  pub save_fault : Option ServiceError
  pub publish_fault : Option ServiceError

module _ {F : Type 0} where
  abbrev pub cancel_row : Text → ReservationDetails F → ReservationDetails F
  cancel_row reason d = record d { status = cancelled; reason_for_cancel = reason }

  -- Up to the write: the booking to save, or the error.
  unfoldable pub cancel_checked :
      CancelEnv → ℕ → Text → Store F → Result ServiceError (ReservationDetails F)
  cancel_checked env id reason seen = do
    d ← get_by_id env.read_fault id seen
    fail_if (is_cancelled d.status || is_completed d.status) err_cannot_cancel
    check env.save_fault
    ok (cancel_row reason d)

  unfoldable pub cancelled_event : CancelEnv → Text → ReservationDetails F → BookingCancelledEvent
  cancelled_event env reason d = record {
    event_id = env.event_id;
    created_at = env.event_time;
    booking_id = d.id;
    reason = reason;
    status = d.status;
  }

  -- A failure to publish is logged, and nothing else.
  unfoldable pub publish_cancelled : CancelEnv → Text → ReservationDetails F → Store F → Store F
  unfolding cancelled_event
  publish_cancelled env reason d st = elim env.publish_fault [
    | none ↦ record st {
      outbox = st.outbox ++ booking_cancelled (cancelled_event env reason d) ∷ [];
    }
    | some _ ↦ st
  ]

  -- `seen` is the store that is read, `st` the one that is written.
  unfoldable pub reservation_cancel :
      CancelEnv
      → ℕ
      → Text
      → Store F
      → Store F
      → Result ServiceError (ReservationDetails F) × Store F
  reservation_cancel env id reason seen st = elim (cancel_checked env id reason seen) [
    | err e ↦ (err e, st)
    | ok d ↦ (ok d, publish_cancelled env reason d (save d st))
  ]
