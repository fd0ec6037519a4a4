-- ===== src/Reservation/Create/Missing.antt =====
-- The conflict query reads the table `reservations`; the program's migration makes only
-- `reservation_details`.
use booking_venue.Base.{ℕ, ◌≡◌, inl, inr, Option, none, ok, err, arith}
use booking_venue.Clock.{Time}
use booking_venue.Float64.{Float64}
use booking_venue.Reservation.Model.{Claims, ReservationCreate, ServiceError}
use booking_venue.Reservation.Repo.{Store}
use booking_venue.Reservation.Conflict.{check_booking_conflicts}
use booking_venue.Reservation.Create.{CreateEnv, create_reservation}
use booking_venue.Reservation.Create.Effects.{create_reservation-Ends}

check-missing_table :
    (fault : Option ServiceError) (venue : ℕ) (s e : Time) (exclude : Option ℕ)
    → ¬ (check_booking_conflicts fault none venue s e exclude ≡ ok tt)
unfolding check_booking_conflicts
check-missing_table fault venue s e exclude h = ground arith

module _ (float : Float64) where
  open float use {F}

  -- Where the table `reservations` is missing, as after the program's own migration, every call fails
  -- and stores nothing.
  pub create_reservation-missing_table :
      (env : CreateEnv F) (req : ReservationCreate) (claims : Claims) (seen st : Store F)
      → st.reservations ≡ none
      → (e : ServiceError) × (create_reservation float env req claims seen st ≡ (err e, st))
  create_reservation-missing_table env req claims seen st missing =
      elim (create_reservation-Ends float env req claims seen st) [
        | inl (d, b, _) ↦ absurd (check-missing_table _ _ _ _ _ (rw missing at b.unbooked))
        | inr (inl (d, b, _)) ↦ absurd (check-missing_table _ _ _ _ _ (rw missing at b.unbooked))
        | inr (inr fails) ↦ fails
      ]
