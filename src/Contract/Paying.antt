-- ===== src/Contract/Paying.antt =====
-- A booking from the request of its client to the payment that its event leads to.
use booking_venue.Base.{
  ◌≡◌, ◌≢◌, refl, sym, ap, ◌∙◌, inl, inr, pos, ◌≤ℤ◌, false, Option, none, some, [], ◌∷◌, ◌++◌, All,
  Result, ok, err,
}
use booking_venue.Float64.{Float64}
use booking_venue.Reservation.Model.{
  Claims, ReservationDetails, ReservationCreate, BookingCreatedEvent, booking_created,
}
use booking_venue.Reservation.Repo.{Store}
use booking_venue.Reservation.Create.{CreateEnv, new_reservation, created_event, create_reservation}
use booking_venue.Reservation.Create.Effects.{Ends, stored, create_reservation-Ends}
use booking_venue.Payment.Model.{pending, Payment, PaymentError}
use booking_venue.Payment.Repo as Payments
use booking_venue.Payment.Repo.{first_by_booking}
use booking_venue.Payment.Service.{PaymentEnv, new_payment}
use booking_venue.Payment.Consumer
use booking_venue.Payment.Consumer.{Turn, message, handle_created, consume_created, booking_request}
use booking_venue.Payment.Consumer.Delivery.{IsUsable, pending_row, handle_created-new}
use booking_venue.Payment.Consumer.Loop.{
  Turns, IsRunning, IsOther, consume-keeps, consume-lacks, consume-append,
}
use booking_venue.Contract.{read_created}

module _ (float : Float64) where
  open float use {F, round}

  -- A call that returns a booking has published its event, under the id of the sequence and for the
  -- user of the token.
  published :
      (env : CreateEnv F) (req : ReservationCreate) (claims : Claims) (seen st st' : Store F)
      (d : ReservationDetails F)
      → create_reservation float env req claims seen st ≡ (ok d, st')
      → (st'.outbox ≡ st.outbox ++ booking_created (created_event float env d) ∷ [])
        × (d.id ≡ st.next_id)
        × (d.client_id ≡ claims.user_id)
  unfolding new_reservation
  published env req claims seen st st' d made =
      split (create_reservation-Ends float env req claims seen st)
    where
      split :
          Ends float env req claims seen st (create_reservation float env req claims seen st)
          → (st'.outbox ≡ st.outbox ++ booking_created (created_event float env d) ∷ [])
            × (d.id ≡ st.next_id)
            × (d.client_id ≡ claims.user_id)
      split (inl (d', booked, out)) =
          let same : d' ≡ d = cc (out, made) in
          let after : record (stored float st d') {
            outbox = st.outbox ++ booking_created (created_event float env d') ∷ [];
          }
              ≡ st' =
            ap (λ (p : Result _ _ × Store F). p.1) (sym out ∙ made) in
          let row : d ≡ record booked.prepared { id = st.next_id; deleted = false } =
            sym same ∙ booked.row in
          (
            sym (ap (λ (s : Store F). s.outbox) after)
                ∙ ap
                    (λ (x : ReservationDetails F).
                      st.outbox ++ booking_created (created_event float env x) ∷ [])
                    same,
            ap (λ (x : ReservationDetails F). x.id) row,
            ap (λ (x : ReservationDetails F). x.client_id) row
                ∙ ap (λ (x : ReservationDetails F). x.client_id) booked.checks.row,
          )
      split (inr (inl (d', booked, out))) = cc (out, made)
      split (inr (inr (e, out))) = cc (out, made)

  -- A booking that CreateReservation returns, of a price that rounds to at least 1, has its event
  -- published. Once the consumer reads that event, as the first one of the booking and while the
  -- database has no fault, the first payment of the booking is a pending one of its rounded price by
  -- the user who asked for it, whatever else the loop has read and reads later.
  pub create_reservation-pays :
      (env : CreateEnv F) (req : ReservationCreate) (claims : Claims) (seen st st' : Store F)
      (d : ReservationDetails F) (before after : Turns float) (pay : PaymentEnv)
      (payments : Payments.Store) (e : PaymentError)
      → create_reservation float env req claims seen st ≡ (ok d, st')
      → st.next_id ≢ 0
      → claims.user_id ≢ 0
      → pos 1 ≤ℤ round d.price
      → pay.create_fault ≡ none
      → All (IsRunning float) before
      → All (IsOther float d.id) before
      → first_by_booking d.id payments.payments ≡ err e
      → (event : BookingCreatedEvent F) × (st'.outbox ≡ st.outbox ++ booking_created event ∷ [])
        × (p : Payment) × (first_by_booking d.id
              (consume_created float
                (before ++ (message (some (read_created event)), pay, none) ∷ after)
                payments).payments
            ≡ ok p)
        × (p.user_id ≡ claims.user_id)
        × (p.amount ≡ round d.price)
        × (p.status ≡ pending)
  unfolding created_event read_created consume_created new_payment booking_request
  create_reservation-pays env req claims seen st st' d before after pay payments e made id user
        price free running others lacking =
      let (sent, id_of, client_of) = published env req claims seen st st' d made in
      let event = created_event float env d in
      let usable : IsUsable float (read_created event) = record {
        has_booking = λ z. id (sym id_of ∙ z);
        has_client = λ z. user (sym client_of ∙ z);
        has_price = price;
      } in
      let here = consume_created float before payments in
      let row = pending_row float pay (read_created event) here in
      let missing = consume-lacks float before d.id e payments others lacking in
      let (_, paid) =
        handle_created-new float pay (read_created event) here e usable free missing in
      let next = handle_created float pay none (read_created event) here in
      let kept = consume-keeps float after d.id row next paid in
      let turn : Turn (Consumer.BookingCreatedEvent F) × PaymentEnv × Option PaymentError =
        (message (some (read_created event)), pay, none) in
      let whole = consume-append float before (turn ∷ after) payments running in
      (
        event,
        sent,
        row,
        ap (λ (s : Payments.Store). first_by_booking d.id s.payments) whole ∙ kept,
        client_of,
        refl,
        refl,
      )
