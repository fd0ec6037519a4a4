-- ===== src/Reservation/History.antt =====
-- The bookings over a history of requests that run one after another: how each request may change
-- the table `reservation_details`, and what every history keeps.
pub mod Changes
use booking_venue.Base.{ℕ, ◌≡◌, ◌⊎◌, inl, inr, ◌||◌, true, Result, ok, err, All}
use booking_venue.Clock.HourMinute.{Text}
use booking_venue.Float64.{Float64}
use booking_venue.Reservation.Model.{
  is_cancelled, is_completed, Status, Claims, ReservationDetails, ReservationCreate,
  ReservationUpdate,
}
use booking_venue.Reservation.Repo.{Store, find}
use booking_venue.Reservation.Repo.Rows.{HasKeys}
use booking_venue.Reservation.Create.{CreateEnv, create_reservation}
use booking_venue.Reservation.Cancel.{CancelEnv, reservation_cancel}
use booking_venue.Reservation.Update.{UpdateEnv, reservation_update}
use Changes.{IsFinal, Change, create-Change, cancel-Change, update-Change, Change-final}

module _ (float : Float64) where
  open float use {F}

  -- One request, in any environment. What it reads first and what it writes are one store; the second
  -- read and the count of an update are in its environment, and may see any other.
  pub data Step (st st' : Store F) : Type 0 where
    create :
        (env : CreateEnv F) (req : ReservationCreate) (claims : Claims)
        → st' ≡ (create_reservation float env req claims st st).1
        → Step st st'
    cancel :
        (env : CancelEnv) (id : ℕ) (reason : Text)
        → st' ≡ (reservation_cancel env id reason st st).1
        → Step st st'
    update :
        (env : UpdateEnv F) (id : ℕ) (upd : ReservationUpdate F)
        → st' ≡ (reservation_update float env id upd st st).1
        → Step st st'

  pub data History (st : Store F) : Store F → Type 0 where
    start : History st st
    next : {t u : Store F} → History st t → Step t u → History st u

  Step-Change : {st st' : Store F} → Step st st' → Change st st'
  Step-Change {st} (create env req claims e) = rw e (create-Change float env req claims st st)
  Step-Change {st} (cancel env id reason e) = rw e (cancel-Change env id reason st)
  Step-Change {st} (update env id upd e) = rw e (update-Change float env id upd st)

  -- A booking that is cancelled or completed stays, in every field, whatever requests follow.
  pub History-final :
      {st st' : Store F} (k : ℕ) (d : ReservationDetails F)
      → History st st'
      → find k st.details ≡ ok d
      → IsFinal d
      → find k st'.details ≡ ok d
  History-final k d start f z = f
  History-final k d (next h s) f z = Change-final k d (Step-Change s) (History-final k d h f z) z
