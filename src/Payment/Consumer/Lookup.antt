-- ===== src/Payment/Consumer/Lookup.antt =====
-- The first payment of a booking, under an insert and a write.
use booking_venue.Base.{
  ℕ, ◌≡◌, ◌≢◌, false, not, ◌&&◌, List, [], ◌∷◌, ◌++◌, ◌==◌, Result, ok, err, arith, All, Bool-cases,
  inl, inr, Option, none, some, subst,
}
use booking_venue.Payment.Model.{Payment, PaymentError, record_not_found}
use booking_venue.Payment.Repo.{
  Store, first_by_booking, first_by_id, put_payment, wrap_not_found, get_payment_by_booking_id,
}
use booking_venue.Payment.Repo.Rows.{HasKeys}

-- An insert does not change which payment is the first of a booking that has one.
pub first_by_booking-append :
    (b : ℕ) (ps : List Payment) (x p : Payment)
    → first_by_booking b ps ≡ ok p
    → first_by_booking b (ps ++ x ∷ []) ≡ ok p
unfolding first_by_booking
first_by_booking-append b [] x p h = cc
first_by_booking-append b (q ∷ ps) x p h = ground (arith, first_by_booking-append b ps x p)

pub first_by_booking-append_new :
    (b : ℕ) (ps : List Payment) (x : Payment) (e : PaymentError)
    → first_by_booking b ps ≡ err e
    → x.booking_id ≡ b
    → x.deleted ≡ false
    → first_by_booking b (ps ++ x ∷ []) ≡ ok x
unfolding first_by_booking
first_by_booking-append_new b [] x e h k d = ground arith
first_by_booking-append_new b (q ∷ ps) x e h k d =
    ground (arith, first_by_booking-append_new b ps x e)

pub first_by_booking-append_other :
    (b : ℕ) (ps : List Payment) (x : Payment) (e : PaymentError)
    → first_by_booking b ps ≡ err e
    → x.booking_id ≢ b
    → first_by_booking b (ps ++ x ∷ []) ≡ err e
unfolding first_by_booking
first_by_booking-append_other b [] x e h k = ground arith
first_by_booking-append_other b (q ∷ ps) x e h k =
    ground (arith, first_by_booking-append_other b ps x e)

-- A lookup fails only by finding nothing.
pub first_by_booking-err :
    (b : ℕ) (ps : List Payment) (e : PaymentError)
    → first_by_booking b ps ≡ err e
    → e ≡ record_not_found
unfolding first_by_booking
first_by_booking-err b [] e h = ground arith
first_by_booking-err b (q ∷ ps) e h = ground (arith, first_by_booking-err b ps e)

wrap_not_found-ok :
    {A : Type 0} (r : Result PaymentError A) (a : A) → wrap_not_found r ≡ ok a → r ≡ ok a
wrap_not_found-ok (ok x) a h = h
wrap_not_found-ok (err record_not_found) a h = cc
wrap_not_found-ok (err _) a h = cc

-- What a lookup finds is the first payment of the booking.
pub get_payment_by_booking_id-ok :
    (fault : Option PaymentError) (b : ℕ) (st : Store) (p : Payment)
    → get_payment_by_booking_id fault b st ≡ ok p
    → first_by_booking b st.payments ≡ ok p
unfolding get_payment_by_booking_id
get_payment_by_booking_id-ok none b st p h = wrap_not_found-ok _ p h
get_payment_by_booking_id-ok (some e) b st p h = absurd (cc (wrap_not_found-ok (err e) p h))

module _ (P : Payment → Type 0) where
  first_by_booking-All :
      (b : ℕ) (ps : List Payment) (p : Payment) → All P ps → first_by_booking b ps ≡ ok p → P p
  unfolding first_by_booking
  first_by_booking-All b [] p a h = cc
  first_by_booking-All b (q ∷ ps) p a h = elim (Bool-cases (q.booking_id == b && not q.deleted)) [
    | inl here ↦ subst P (cc (rw here at h)) a.0
    | inr there ↦ first_by_booking-All b ps p a.1 (rw there at h)
  ]

pub first_by_booking-live :
    (b : ℕ) (ps : List Payment) (p : Payment)
    → first_by_booking b ps ≡ ok p
    → (p.booking_id ≡ b) × (p.deleted ≡ false)
unfolding first_by_booking
first_by_booking-live b [] p h = cc
first_by_booking-live b (q ∷ ps) p h = ground (arith, first_by_booking-live b ps p)

-- The first payment of a booking is what its id finds.
pub first_by_booking-by_id :
    (n b : ℕ) (ps : List Payment) (p : Payment)
    → HasKeys n ps
    → first_by_booking b ps ≡ ok p
    → first_by_id p.id ps ≡ ok p
unfolding first_by_booking first_by_id
first_by_booking-by_id n b [] p k h = cc
first_by_booking-by_id n b (q ∷ ps) p k h = elim (Bool-cases (q.booking_id == b && not q.deleted)) [
  | inl here ↦ ground (arith, here)
  | inr there ↦
      let h' : first_by_booking b ps ≡ ok p = rw there at h in
      ground (
        arith,
        first_by_booking-by_id n b ps p k.2 h',
        first_by_booking-All (λ x. x.id ≢ q.id) b ps p k.1 h',
      )
]

pub first_by_booking-put :
    (n b : ℕ) (ps : List Payment) (p p' : Payment)
    → HasKeys n ps
    → first_by_booking b ps ≡ ok p
    → p'.id ≡ p.id
    → p'.booking_id ≡ b
    → p'.deleted ≡ false
    → first_by_booking b (put_payment p' ps) ≡ ok p'
unfolding first_by_booking put_payment
first_by_booking-put n b [] p p' k h i j d = cc
first_by_booking-put n b (q ∷ ps) p p' k h i j d =
    elim (Bool-cases (q.booking_id == b && not q.deleted)) [
      | inl here ↦ ground (arith, here)
      | inr there ↦
          let h' : first_by_booking b ps ≡ ok p = rw there at h in
          ground (
            arith,
            there,
            first_by_booking-put n b ps p p' k.2 h' i j d,
            first_by_booking-All (λ x. x.id ≢ q.id) b ps p k.1 h',
          )
    ]
