-- ===== src/Reservation/History/Changes.antt =====
-- The ways in which one request changes the table `reservation_details`, and the bookings that they keep.
use booking_venue.Base.{
  ℕ, ◌+◌, ◌≡◌, inl, inr, ◌||◌, true, false, [], ◌∷◌, ◌++◌, ok, arith, ap, sym, ◌∙◌, ◌==◌, ==_iff,
  Bool-cases,
}
use booking_venue.Clock.HourMinute.{Text}
use booking_venue.Float64.{Float64}
use booking_venue.Reservation.Model.{
  is_cancelled, is_completed, Claims, ReservationDetails, ReservationCreate, ReservationUpdate,
}
use booking_venue.Reservation.Repo.{Store, find, put, save}
use booking_venue.Reservation.Repo.Rows.{find-id, find-put_ne, find-append}
use booking_venue.Reservation.Create.{CreateEnv, create_reservation}
use booking_venue.Reservation.Create.Effects.{create_reservation-Ends}
use booking_venue.Reservation.Cancel.{CancelEnv, reservation_cancel}
use booking_venue.Reservation.Cancel.Effects.{cancel_checked-ok, reservation_cancel-runs}
use booking_venue.Reservation.Update.{UpdateEnv, reservation_update}
use booking_venue.Reservation.Update.Effects.{update_checked-IsUpdate, reservation_update-runs}

-- Cancelled and completed bookings are final.
abbrev pub IsFinal : {F : Type 0} → ReservationDetails F → Type 0
IsFinal d = (is_cancelled d.status || is_completed d.status) ≡ true

module _ {F : Type 0} where
  pub data Change (st st' : Store F) : Type 0 where
    same : st' ≡ st → Change st st'
    added :
        (d : ReservationDetails F)
        → d.id ≡ st.next_id
        → st'.details ≡ st.details ++ d ∷ []
        → st'.next_id ≡ st.next_id + 1
        → Change st st'
    replaced :
        (old d : ReservationDetails F)
        → find d.id st.details ≡ ok old
        → (is_cancelled old.status || is_completed old.status) ≡ false
        → st'.details ≡ put d st.details
        → st'.next_id ≡ st.next_id
        → Change st st'

  pub Change-final :
      {st st' : Store F} (k : ℕ) (x : ReservationDetails F)
      → Change st st'
      → find k st.details ≡ ok x
      → IsFinal x
      → find k st'.details ≡ ok x
  Change-final k x (same e) f z = rw e f
  Change-final {st} k x (added d i e n) f z = rw e (find-append k d st.details x f)
  Change-final {st} k x (replaced old d g l e n) f z = elim (Bool-cases (k == d.id)) [
    | inl q ↦
        let same_row : old ≡ x = cc (g, f, (==_iff k d.id).0 q) in
        absurd (ground (arith, l, z, same_row))
    | inr q ↦ rw e (find-put_ne k d st.details (ground arith) ∙ f)
  ]

  pub cancel-Change :
      (env : CancelEnv) (id : ℕ) (reason : Text) (st : Store F)
      → Change st (reservation_cancel env id reason st st).1
  cancel-Change env id reason st =
      let (runs, ends) = reservation_cancel-runs env id reason st st in
      elim ends [
        | inl (e, _, s) ↦ same s
        | inr (d, r, s, n) ↦
            let (old, found, live, row) = cancel_checked-ok env id reason st d (sym runs ∙ r) in
            replaced old d (rw (row, (find-id id st.details old found).0) found) live s n
      ]

module _ (float : Float64) where
  open float use {F}

  pub create-Change :
      (env : CreateEnv F) (req : ReservationCreate) (claims : Claims) (seen st : Store F)
      → Change st (create_reservation float env req claims seen st).1
  create-Change env req claims seen st =
      elim (create_reservation-Ends float env req claims seen st) [
        | inl (d, b, e) ↦
            added d (ap (λ x. x.id) b.row) (ap (λ x. x.1.details) e) (ap (λ x. x.1.next_id) e)
        | inr (inl (d, b, e)) ↦
            added d (ap (λ x. x.id) b.row) (ap (λ x. x.1.details) e) (ap (λ x. x.1.next_id) e)
        | inr (inr (x, e)) ↦ same (ap (λ x. x.1) e)
      ]

  pub update-Change :
      (env : UpdateEnv F) (id : ℕ) (upd : ReservationUpdate F) (st : Store F)
      → Change st (reservation_update float env id upd st st).1
  unfolding save
  update-Change env id upd st = elim (reservation_update-runs float env id upd st st) [
    | inl (e, _, s) ↦ same s
    | inr (d, checked, r, s) ↦
        let (old, u) = update_checked-IsUpdate float env id upd st d checked in
        replaced old d (rw (u.row, (find-id id st.details old u.found).0) u.found)
          (ground (arith, u.is_pending)) (ap (λ x. x.details) s) (ap (λ x. x.next_id) s)
  ]
