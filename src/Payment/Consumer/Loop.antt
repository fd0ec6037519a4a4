-- ===== src/Payment/Consumer/Loop.antt =====
-- The loop over booking.created: what it does to an event sooner or later, between whatever else.
use booking_venue.Base.{
  ℕ, ◌≡◌, ◌≢◌, ◌⊎◌, refl, sym, inl, inr, ap, ◌∙◌, leb_ℤ, pos, ◌||◌, ◌==◌, Option, none, some, List,
  [], ◌∷◌, ◌++◌, All, Result, ok, err, check, ◌>>◌, Bool-cases, Result-cases,
}
use booking_venue.Float64.{Float64}
use booking_venue.Payment.Model.{Payment, CreatePaymentRequest, PaymentError}
use booking_venue.Payment.Repo.{Store, first_by_booking, create_payment}
use booking_venue.Payment.Service.{
  PaymentEnv, check_payment, new_payment, make_payment, create_pending_payment,
}
use booking_venue.Payment.Consumer.{
  BookingCreatedEvent, Turn, stopped, read_failed, message, is_not_found, booking_request,
  create_if_absent, handle_created, consume_created,
}
use booking_venue.Payment.Consumer.Lookup.{first_by_booking-append, first_by_booking-append_other}
use booking_venue.Payment.Consumer.Delivery.{IsUsable, handle_created-new}

-- The payments of the first store, and perhaps one more, of the booking.
abbrev Grows : ℕ → Store → Store → Type 0
Grows b st st' =
    (st'.payments ≡ st.payments)
    ⊎ ((p : Payment) × (st'.payments ≡ st.payments ++ p ∷ []) × (p.booking_id ≡ b))

pending-Grows :
    (env : PaymentEnv) (req : CreatePaymentRequest) (st : Store)
    → Grows req.booking_id st (create_pending_payment env (some req) st).1
unfolding create_pending_payment make_payment create_payment new_payment
pending-Grows env req st = elim (Result-cases (check_payment req >> check env.create_fault)) [
  | inl (e, bad) ↦ rw (bad, create_pending_payment, make_payment) (inl refl)
  | inr (u, good) ↦ rw (good, create_pending_payment, make_payment) (inr (_, refl, refl))
]

absent-Grows :
    (env : PaymentEnv) (req : CreatePaymentRequest) (r : Result PaymentError Payment) (st : Store)
    → Grows req.booking_id st (create_if_absent env req r st)
unfolding create_if_absent
absent-Grows env req (ok p) st = inl refl
absent-Grows env req (err e) st = elim (Bool-cases (is_not_found e)) [
  | inl n ↦ rw n (pending-Grows env req st)
  | inr n ↦ rw n (inl refl)
]

Grows-keeps :
    (b c : ℕ) (p : Payment) (st st' : Store)
    → Grows c st st'
    → first_by_booking b st.payments ≡ ok p
    → first_by_booking b st'.payments ≡ ok p
Grows-keeps b c p st st' (inl same) h = ap (first_by_booking b) same ∙ h
Grows-keeps b c p st st' (inr (q, more, _)) h =
    ap (first_by_booking b) more ∙ first_by_booking-append b st.payments q p h

Grows-lacks :
    (b c : ℕ) (e : PaymentError) (st st' : Store)
    → Grows c st st'
    → c ≢ b
    → first_by_booking b st.payments ≡ err e
    → first_by_booking b st'.payments ≡ err e
Grows-lacks b c e st st' (inl same) other h = ap (first_by_booking b) same ∙ h
Grows-lacks b c e st st' (inr (q, more, of_it)) other h =
    ap (first_by_booking b) more
    ∙ first_by_booking-append_other b st.payments q e h (λ k. other (sym of_it ∙ k))

module _ (float : Float64) where
  open float use {F, round}

  handle_created-Grows :
      (env : PaymentEnv) (fault : Option PaymentError) (event : BookingCreatedEvent F) (st : Store)
      → Grows event.booking_id st (handle_created float env fault event st)
  unfolding handle_created booking_request
  handle_created-Grows env fault event st =
      elim (Bool-cases (event.booking_id == 0 || event.client_id == 0)) [
        | inl z ↦ rw z (inl refl)
        | inr nz ↦ elim (Bool-cases (leb_ℤ (round event.price) (pos 0))) [
          | inl n ↦ rw (nz, n) (inl refl)
          | inr n ↦ rw (nz, n) (absent-Grows env _ _ st)
        ]
      ]

  abbrev pub Turns : Type 0
  Turns = List (Turn (BookingCreatedEvent F) × PaymentEnv × Option PaymentError)

  -- No turn finds the context done.
  abbrev pub IsRunning : Turn (BookingCreatedEvent F) × PaymentEnv × Option PaymentError → Type 0
  IsRunning (stopped, _, _) = ⊥
  IsRunning _ = Unit

  -- A booking that has a payment keeps it as its first, however the loop goes on.
  pub consume-keeps :
      (ts : Turns) (b : ℕ) (p : Payment) (st : Store)
      → first_by_booking b st.payments ≡ ok p
      → first_by_booking b (consume_created float ts st).payments ≡ ok p
  unfolding consume_created
  consume-keeps [] b p st h = h
  consume-keeps ((stopped, _, _) ∷ ts) b p st h = h
  consume-keeps ((read_failed, _, _) ∷ ts) b p st h = consume-keeps ts b p st h
  consume-keeps ((message none, _, _) ∷ ts) b p st h = consume-keeps ts b p st h
  consume-keeps ((message (some event), env, fault) ∷ ts) b p st h =
      consume-keeps ts b p (handle_created float env fault event st) (
        Grows-keeps b event.booking_id p st (handle_created float env fault event st)
          (handle_created-Grows env fault event st) h)

  -- The turn brings no event of the booking.
  abbrev pub IsOther : ℕ → Turn (BookingCreatedEvent F) × PaymentEnv × Option PaymentError → Type 0
  IsOther b (message (some event), _, _) = event.booking_id ≢ b
  IsOther b _ = Unit

  -- A booking without a payment is without one after turns that bring no event of it.
  pub consume-lacks :
      (ts : Turns) (b : ℕ) (e : PaymentError) (st : Store)
      → All (IsOther b) ts
      → first_by_booking b st.payments ≡ err e
      → first_by_booking b (consume_created float ts st).payments ≡ err e
  unfolding consume_created
  consume-lacks [] b e st others h = h
  consume-lacks ((stopped, _, _) ∷ ts) b e st others h = h
  consume-lacks ((read_failed, _, _) ∷ ts) b e st others h = consume-lacks ts b e st others.1 h
  consume-lacks ((message none, _, _) ∷ ts) b e st others h = consume-lacks ts b e st others.1 h
  consume-lacks ((message (some event), env, fault) ∷ ts) b e st others h =
      let st' = handle_created float env fault event st in
      consume-lacks ts b e st' others.1 (
        Grows-lacks b event.booking_id e st st' (handle_created-Grows env fault event st) others.0
          h)

  -- Turns that do not find the context done come before those that follow them.
  pub consume-append :
      (ts us : Turns) (st : Store)
      → All IsRunning ts
      → consume_created float (ts ++ us) st ≡ consume_created float us (consume_created float ts st)
  unfolding consume_created
  consume-append [] us st running = refl
  consume-append ((stopped, _, _) ∷ ts) us st running = absurd running.0
  consume-append ((read_failed, _, _) ∷ ts) us st running = consume-append ts us st running.1
  consume-append ((message none, _, _) ∷ ts) us st running = consume-append ts us st running.1
  consume-append ((message (some event), env, fault) ∷ ts) us st running =
      consume-append ts us (handle_created float env fault event st) running.1

  handle_created-pays :
      (env : PaymentEnv) (event : BookingCreatedEvent F) (st : Store)
      → IsUsable float event
      → env.create_fault ≡ none
      → (p : Payment) × (first_by_booking event.booking_id
            (handle_created float env none event st).payments
          ≡ ok p)
  handle_created-pays env event st usable free =
      elim (Result-cases (first_by_booking event.booking_id st.payments)) [
        | inl (e, missing) ↦ (_, (handle_created-new float env event st e usable free missing).1)
        | inr (p, there) ↦
            let st' = handle_created float env none event st in
            (
              p,
              Grows-keeps event.booking_id event.booking_id p st st'
                  (handle_created-Grows env none event st) there,
            )
      ]

  -- An event of a booking with a client and a price, which the loop reads while the database has no
  -- fault, leads to a payment of the booking, whatever turns come before it, none of which finds the
  -- context done, and however the loop goes on after it.
  pub consume_created-pays :
      (before after : Turns) (env : PaymentEnv) (event : BookingCreatedEvent F) (st : Store)
      → All IsRunning before
      → IsUsable float event
      → env.create_fault ≡ none
      → (p : Payment) × (first_by_booking event.booking_id
            (consume_created float
              (before ++ (message (some event), env, none) ∷ after)
              st).payments
          ≡ ok p)
  unfolding consume_created
  consume_created-pays before after env event st running usable free =
      let b = event.booking_id in
      let here = consume_created float before st in
      let (p, paid) = handle_created-pays env event here usable free in
      let kept = consume-keeps after b p (handle_created float env none event here) paid in
      let whole = consume-append before ((message (some event), env, none) ∷ after) st running in
      (p, ap (λ (s : Store). first_by_booking b s.payments) whole ∙ kept)
