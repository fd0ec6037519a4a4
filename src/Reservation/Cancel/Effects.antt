-- ===== src/Reservation/Cancel/Effects.antt =====
-- What a cancellation does to the store.
use booking_venue.Base.{
  ℕ, ◌≡◌, ◌≢◌, refl, ◌⊎◌, inl, inr, ◌||◌, false, Option, ok, err, arith, sym, Result-cases,
  >>=-eq-ok, ◌∙◌,
}
use booking_venue.Clock.HourMinute.{Text}
use booking_venue.Reservation.Model.{is_cancelled, is_completed, ReservationDetails, ServiceError}
use booking_venue.Reservation.Repo.{Store, find, put, get_by_id, save}
use booking_venue.Reservation.Repo.Rows.{find-id, find-put_self, find-put_ne}
use booking_venue.Reservation.Cancel.{
  CancelEnv, cancel_row, cancel_checked, publish_cancelled, reservation_cancel,
}

module _ {F : Type 0} where
  get_by_id-ok :
      (fault : Option ServiceError) (id : ℕ) (st : Store F) (d : ReservationDetails F)
      → get_by_id fault id st ≡ ok d
      → find id st.details ≡ ok d
  unfolding get_by_id
  get_by_id-ok fault id st d h = ground arith

  publish_cancelled-details :
      (env : CancelEnv) (reason : Text) (d : ReservationDetails F) (st : Store F)
      → ((publish_cancelled env reason d st).details ≡ st.details)
        × ((publish_cancelled env reason d st).next_id ≡ st.next_id)
  unfolding publish_cancelled
  publish_cancelled-details env reason d st = ground arith

  -- What the checks have established of the booking that is saved.
  pub cancel_checked-ok :
      (env : CancelEnv) (id : ℕ) (reason : Text) (seen : Store F) (d : ReservationDetails F)
      → cancel_checked env id reason seen ≡ ok d
      → (old : ReservationDetails F) × (find id seen.details ≡ ok old)
        × ((is_cancelled old.status || is_completed old.status) ≡ false)
        × (d ≡ cancel_row reason old)
  unfolding cancel_checked
  cancel_checked-ok env id reason seen d h =
      let (old, got, h₁) = >>=-eq-ok _ _ h in
      (old, get_by_id-ok env.read_fault id seen old got, ground arith, ground arith)

  -- A call writes exactly when its checks return a booking, and then that booking.
  pub reservation_cancel-runs :
      (env : CancelEnv) (id : ℕ) (reason : Text) (seen st : Store F)
      → let (r, st') = reservation_cancel env id reason seen st in
        (r ≡ cancel_checked env id reason seen)
        × (((e : ServiceError) × (r ≡ err e) × (st' ≡ st))
            ⊎ ((d : ReservationDetails F) × (r ≡ ok d)
                × (st'.details ≡ put d st.details)
                × (st'.next_id ≡ st.next_id)))
  unfolding reservation_cancel save
  reservation_cancel-runs env id reason seen st =
      elim (Result-cases (cancel_checked env id reason seen)) [
        | inl (e, q) ↦ rw (q, reservation_cancel) (refl, inl (e, refl, refl))
        | inr (d, q) ↦
            let (details, next_id) = publish_cancelled-details env reason d (save d st) in
            rw (q, reservation_cancel) (refl, inr (d, refl, details, next_id))
      ]

  -- A call that returns a booking has found it live and neither cancelled nor completed, and returns
  -- it cancelled with the reason. Afterwards the table holds that booking under the id, and every
  -- other id holds what it held. (The call reads and writes one store: no other request comes in
  -- between.)
  pub reservation_cancel-ok :
      (env : CancelEnv) (id : ℕ) (reason : Text) (st : Store F) (d : ReservationDetails F)
      → (reservation_cancel env id reason st st).0 ≡ ok d
      → let st' = (reservation_cancel env id reason st st).1 in
        (old : ReservationDetails F) × (find id st.details ≡ ok old)
        × ((is_cancelled old.status || is_completed old.status) ≡ false)
        × (d ≡ cancel_row reason old)
        × (find id st'.details ≡ ok d)
        × ((j : ℕ) → j ≢ id → find j st'.details ≡ find j st.details)
  reservation_cancel-ok env id reason st d h =
      let (runs, ends) = reservation_cancel-runs env id reason st st in
      let (old, found, live, row) = cancel_checked-ok env id reason st d (sym runs ∙ h) in
      let (same_id, alive) = find-id id st.details old found in
      let d_id : d.id ≡ id = rw row same_id in
      let stored : (reservation_cancel env id reason st st).1.details ≡ put d st.details =
        elim ends [ inl (e, r, _) ↦ cc | inr (d', r, p, _) ↦ cc ] in
      (
        old,
        found,
        live,
        row,
        rw (stored, ← d_id) (find-put_self d st.details (rw row alive)),
        λ j ne. rw stored (find-put_ne j d st.details (λ e. ne (e ∙ d_id))),
      )
