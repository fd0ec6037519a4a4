-- ===== src/Reservation/Update/Effects.antt =====
-- What an update does to the store.
use booking_venue.Base.{
  ℕ, ◌≡◌, ◌≢◌, refl, ◌⊎◌, inl, inr, Option, some, ok, err, arith, ◌<◌, ◌≤◌, Result-cases, >>=-eq-ok,
  ◌∙◌, sym, ap,
}
use booking_venue.Clock.{Time, sub}
use booking_venue.Float64.{Float64}
use booking_venue.Reservation.Model.{pending, ReservationDetails, ReservationUpdate, ServiceError}
use booking_venue.Reservation.Repo.{Store, find, put, get_by_id, save}
use booking_venue.Reservation.Repo.Rows.{find-id, find-put_self, find-put_ne}
use booking_venue.Reservation.Schedule.{validate_schedule}
use booking_venue.Reservation.Conflict.{check_booking_conflicts}
use booking_venue.Reservation.Update.{
  UpdateEnv, check_update, validate_reservation_update, apply_update, update_checked,
  reservation_update,
}

module _ {F : Type 0} where
  read-find :
      (fault : Option ServiceError) (id : ℕ) (st : Store F) (d : ReservationDetails F)
      → get_by_id fault id st ≡ ok d
      → find id st.details ≡ ok d
  unfolding get_by_id
  read-find fault id st d h = ground arith

  check_update-ok :
      (now : Time) (upd : ReservationUpdate F) (d : ReservationDetails F)
      → check_update now upd d ≡ ok tt
      → ((apply_update upd d).start_at.instant < (apply_update upd d).end_at.instant)
        × (now.instant ≤ (apply_update upd d).start_at.instant)
  unfolding check_update
  check_update-ok now upd d h = ground arith

  -- What ValidateReservationUpdate has checked: the interval of the row that it has read itself, with the
  -- fields that are given.
  pub record IsValidated (env : UpdateEnv F) (id : ℕ) (upd : ReservationUpdate F)
      (current : ReservationDetails F) : Type 0 where
    pub found : find id env.again.details ≡ ok current
    pub scheduled :
        let final = apply_update upd current in
        validate_schedule (env.schedule_reply final.venue_id) final.start_at final.end_at ≡ ok tt
    pub unbooked :
        let final = apply_update upd current in
        check_booking_conflicts env.count_fault env.counted final.venue_id final.start_at
          final.end_at
          (some id)
        ≡ ok tt

  validate_update-ok :
      (env : UpdateEnv F) (id : ℕ) (upd : ReservationUpdate F)
      → validate_reservation_update env id upd ≡ ok tt
      → (current : ReservationDetails F) × IsValidated env id upd current
  unfolding validate_reservation_update
  validate_update-ok env id upd h =
      let (current, got, h₁) = >>=-eq-ok _ _ h in
      (
        current,
        record {
          found = read-find env.read_again_fault id env.again current got;
          scheduled = ground (arith, h₁);
          unbooked = ground (arith, h₁);
        },
      )

module _ (float : Float64) where
  open float use {F}

  -- What the checks have established of the row that is saved.
  pub record IsUpdate (env : UpdateEnv F) (id : ℕ) (upd : ReservationUpdate F) (seen : Store F)
      (old new : ReservationDetails F) : Type 0 where
    pub found : find id seen.details ≡ ok old
    pub is_pending : old.status ≡ pending
    pub row : new ≡ apply_update upd old
    pub in_order : new.start_at.instant < new.end_at.instant
    pub not_past : env.now.instant ≤ new.start_at.instant
    pub current : ReservationDetails F
    pub validated : IsValidated env id upd current

  pub update_checked-IsUpdate :
      (env : UpdateEnv F) (id : ℕ) (upd : ReservationUpdate F) (seen : Store F)
      (new : ReservationDetails F)
      → update_checked float env id upd seen ≡ ok new
      → (old : ReservationDetails F) × IsUpdate env id upd seen old new
  unfolding update_checked
  update_checked-IsUpdate env id upd seen new h =
      let (old, got, h₁) = >>=-eq-ok _ _ h in
      let (_, checked, h₂) = >>=-eq-ok _ _ h₁ in
      let (_, validated, h₃) = >>=-eq-ok _ _ h₂ in
      let found = read-find env.read_fault id seen old got in
      let row : new ≡ apply_update upd old = ground arith in
      let (in_order, not_past) = check_update-ok env.now upd old checked in
      let (current, ok_again) = validate_update-ok env id upd validated in
      (
        old,
        record {
          found = found;
          is_pending = ground arith;
          row = row;
          in_order = rw row in_order;
          not_past = rw row not_past;
          current = current;
          validated = ok_again;
        },
      )

  -- A call fails and writes nothing, or writes the row that its checks return.
  pub reservation_update-runs :
      (env : UpdateEnv F) (id : ℕ) (upd : ReservationUpdate F) (seen st : Store F)
      → let (r, st') = reservation_update float env id upd seen st in
        ((e : ServiceError) × (r ≡ err e) × (st' ≡ st))
        ⊎ ((d : ReservationDetails F) × (update_checked float env id upd seen ≡ ok d)
            × (r ≡ ok (record d { duration = sub d.end_at d.start_at }))
            × (st' ≡ save d st))
  unfolding reservation_update
  reservation_update-runs env id upd seen st =
      elim (Result-cases (update_checked float env id upd seen)) [
        | inl (e, q) ↦ rw (q, reservation_update) (inl (e, refl, refl))
        | inr (d, q) ↦ rw (q, reservation_update) (inr (d, refl, refl, refl))
      ]

  -- After a write the table holds the row under the id, and every other id holds what it held.
  written :
      (id : ℕ) (d old : ReservationDetails F) (upd : ReservationUpdate F) (seen st : Store F)
      → find id seen.details ≡ ok old
      → d ≡ apply_update upd old
      → (find id (put d st.details) ≡ ok d)
        × ((j : ℕ) → j ≢ id → find j (put d st.details) ≡ find j st.details)
  written id d old upd seen st found row =
      let (same_id, alive) = find-id id seen.details old found in
      let d_id : d.id ≡ id = rw row same_id in
      (
        rw (← d_id) (find-put_self d st.details (rw row alive)),
        λ j ne. find-put_ne j d st.details (λ e. ne (e ∙ d_id)),
      )

  -- What a call that returned a booking has done, for the store that it read and the one that it
  -- wrote.
  pub record IsUpdated (env : UpdateEnv F) (id : ℕ) (upd : ReservationUpdate F)
      (seen st st' : Store F) (shown : ReservationDetails F) : Type 0 where
    pub old : ReservationDetails F
    pub new : ReservationDetails F
    pub checks : IsUpdate env id upd seen old new
    pub result : shown ≡ record new { duration = sub new.end_at new.start_at }
    pub stored : find id st'.details ≡ ok new
    pub others : (j : ℕ) → j ≢ id → find j st'.details ≡ find j st.details

  -- A call that returns a booking has read it pending and live, with the final interval in order and
  -- not in the past, for the row that it read first. The interval within the schedule and without
  -- conflict is that of the row as it was read a second time, which another request may have changed, so
  -- it need not be the one that is saved. The table then holds the booking with the given fields replaced
  -- and all others as they were read first, under every other id what it held, and the booking returned
  -- differs from the stored one in the duration alone.
  pub reservation_update-IsUpdated :
      (env : UpdateEnv F) (id : ℕ) (upd : ReservationUpdate F) (seen st : Store F)
      (shown : ReservationDetails F)
      → (reservation_update float env id upd seen st).0 ≡ ok shown
      → IsUpdated env id upd seen st (reservation_update float env id upd seen st).1 shown
  unfolding save
  reservation_update-IsUpdated env id upd seen st shown h =
      elim (reservation_update-runs env id upd seen st) [
        | inl (e, r, _) ↦ cc
        | inr (d, checked, r, s) ↦
            let (old, u) = update_checked-IsUpdate env id upd seen d checked in
            let (stored, others) = written id d old upd seen st u.found u.row in
            record {
              old = old;
              new = d;
              checks = u;
              result = ground (arith, sym h, r);
              stored = rw s stored;
              others = λ j ne. rw s (others j ne);
            }
      ]

  -- The stored row keeps the duration that was read: where the new interval is of another length,
  -- the table says a duration that is not the booking's.
  pub reservation_update-stale_duration :
      (env : UpdateEnv F) (id : ℕ) (upd : ReservationUpdate F) (st : Store F)
      (old shown : ReservationDetails F)
      → find id st.details ≡ ok old
      → (reservation_update float env id upd st st).0 ≡ ok shown
      → old.duration ≢ shown.duration
      → (row : ReservationDetails F) × (find id
            (reservation_update float env id upd st st).1.details
          ≡ ok row)
        × (row.duration ≡ old.duration)
        × (row.duration ≢ sub row.end_at row.start_at)
  reservation_update-stale_duration env id upd st old shown f h ne =
      let u = reservation_update-IsUpdated env id upd st st shown h in
      let same : u.old ≡ old = cc (u.checks.found, f) in
      let kept : u.new.duration ≡ old.duration = rw (u.checks.row, same) refl in
      (u.new, u.stored, kept, λ e. ne (sym kept ∙ e ∙ sym (ap (λ x. x.duration) u.result)))

  -- A write goes by what was read: if the booking was cancelled, or anything else, between the read
  -- and the write, it is pending again afterwards.
  pub reservation_update-revives :
      (env : UpdateEnv F) (id : ℕ) (upd : ReservationUpdate F) (seen st : Store F)
      (shown : ReservationDetails F)
      → (reservation_update float env id upd seen st).0 ≡ ok shown
      → (row : ReservationDetails F) × (find id
            (reservation_update float env id upd seen st).1.details
          ≡ ok row)
        × (row.status ≡ pending)
  reservation_update-revives env id upd seen st shown h =
      let u = reservation_update-IsUpdated env id upd seen st shown h in
      (u.new, u.stored, rw u.checks.row u.checks.is_pending)
