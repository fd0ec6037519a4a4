-- ===== src/Reservation/Create/Effects.antt =====
-- What `CreateReservation` does to the store, on every branch.
use booking_venue.Base.{
  ◌+◌, ◌≡◌, refl, ◌⊎◌, inl, inr, Bool, none, [], ◌∷◌, ◌++◌, Result, ok, err, arith, Result-cases,
  Option-cases,
}
use booking_venue.Float64.{Float64}
use booking_venue.Reservation.Model.{
  Claims, ReservationDetails, ReservationCreate, booking_created, ServiceError, publish_failed,
}
use booking_venue.Reservation.Repo.{Store, create}
use booking_venue.Reservation.Conflict.{check_booking_conflicts}
use booking_venue.Reservation.Create.{
  CreateEnv, prepare, transaction, created_event, publish_created, insert_reservation,
  create_reservation,
}
use booking_venue.Reservation.Create.Checks.{IsPrepared, prepare-IsPrepared}

module _ (float : Float64) where
  open float use {F}

  -- The store with the new booking in it.
  abbrev pub stored : Store F → ReservationDetails F → Store F
  stored st d = record st { details = st.details ++ d ∷ []; next_id = st.next_id + 1 }

  -- `d` is the row that the transaction inserts on `st`: what the checks prepared, under the id of
  -- the sequence, with no conflict in the table at that moment.
  pub record IsBooked (env : CreateEnv F) (req : ReservationCreate) (claims : Claims)
      (seen st : Store F) (d : ReservationDetails F) : Type 0 where
    pub prepared : ReservationDetails F
    pub checks : IsPrepared float env req claims seen prepared
    pub row : d ≡ record prepared { id = st.next_id; deleted = Bool.false }
    pub unbooked :
        check_booking_conflicts env.count_fault st.reservations d.venue_id d.start_at d.end_at none
        ≡ ok tt

  -- The three ways in which a call ends.
  abbrev pub Ends :
      CreateEnv F
      → ReservationCreate
      → Claims
      → Store F
      → Store F
      → Result ServiceError (ReservationDetails F) × Store F
      → Type 0
  Ends env req claims seen st out =
      ((d : ReservationDetails F) × IsBooked env req claims seen st d
        × (out ≡ (
          ok d,
          record (stored st d) {
            outbox = st.outbox ++ booking_created (created_event float env d) ∷ [];
          },
        )))
      ⊎ ((d : ReservationDetails F) × IsBooked env req claims seen st d
          × (out ≡ (err (publish_failed d.id), stored st d)))
      ⊎ ((e : ServiceError) × (out ≡ (err e, st)))

  transaction-unbooked :
      (env : CreateEnv F) (d : ReservationDetails F) (st : Store F)
      → transaction float env d st ≡ ok tt
      → check_booking_conflicts env.count_fault st.reservations d.venue_id d.start_at d.end_at none
        ≡ ok tt
  unfolding transaction
  transaction-unbooked env d st h = ground arith

  insert_reservation-Ends :
      (env : CreateEnv F) (req : ReservationCreate) (claims : Claims) (seen st : Store F)
      (d : ReservationDetails F)
      → IsPrepared float env req claims seen d
      → Ends env req claims seen st (insert_reservation float env d st)
  unfolding insert_reservation create publish_created
  insert_reservation-Ends env req claims seen st d checks =
      let d' : ReservationDetails F = record d { id = st.next_id; deleted = Bool.false } in
      elim (Result-cases (transaction float env d st)) [
        | inl (e, q) ↦ inr (inr (e, rw (q, insert_reservation)))
        | inr (_, q) ↦
            let booked : IsBooked env req claims seen st d' = record {
              prepared = d;
              checks = checks;
              row = refl;
              unbooked = transaction-unbooked env d st q;
            } in
            elim (Option-cases env.publish_fault) [
              | inl p ↦ inl (d', booked, rw (q, insert_reservation, p))
              | inr (e, p) ↦ inr (inl (d', booked, rw (q, insert_reservation, p)))
            ]
      ]

  -- Every call ends in one of three ways: the booking is stored and its event published; it is
  -- stored, and the error says that its event was not published; or the call fails and the store is
  -- as it was.
  pub create_reservation-Ends :
      (env : CreateEnv F) (req : ReservationCreate) (claims : Claims) (seen st : Store F)
      → Ends env req claims seen st (create_reservation float env req claims seen st)
  unfolding create_reservation
  create_reservation-Ends env req claims seen st =
      elim (Result-cases (prepare float env req claims seen)) [
        | inl (e, q) ↦ inr (inr (e, rw (q, create_reservation)))
        | inr (d, q) ↦
            rw (q, create_reservation)
              (insert_reservation-Ends env req claims seen st d
                (prepare-IsPrepared float env req claims seen d q))
      ]
