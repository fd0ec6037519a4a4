-- ===== src/Payment/Repo/Rows.antt =====
-- The rows of the payment tables under a read, a write and an insert, and the sum of the refunds of
-- one payment.
use booking_venue.Base.{
  ℕ, ◌+◌, ◌<◌, ◌≡◌, ◌≢◌, refl, false, not, ◌&&◌, List, [], ◌∷◌, ◌++◌, ◌==◌, ==_iff, ok, arith, All,
  All-append, Bool-cases, inl, inr, subst, ℤ, pos, ◌+ℤ◌, int_laws, if◌then◌else◌,
}
use booking_venue.Payment.Model.{Payment, Refund}
use booking_venue.Payment.Repo.{first_by_id, put_payment}

-- Every id is below the sequence's next value, and no two payments share an id.
abbrev pub HasKeys : ℕ → List Payment → Type 0
HasKeys n [] = Unit
HasKeys n (p ∷ ps) = (p.id < n) × All (λ q. q.id ≢ p.id) ps × HasKeys n ps

-- What has been refunded of the payment `k`.
abbrev pub refunded_sum : ℕ → List Refund → ℤ
refunded_sum k [] = pos 0
refunded_sum k (r ∷ rs) =
    let rest = refunded_sum k rs in if r.payment_id == k then r.amount +ℤ rest else rest

pub first_by_id-id :
    (k : ℕ) (ps : List Payment) (p : Payment)
    → first_by_id k ps ≡ ok p
    → (p.id ≡ k) × (p.deleted ≡ false)
unfolding first_by_id
first_by_id-id k [] p h = cc
first_by_id-id k (q ∷ ps) p h = ground (arith, first_by_id-id k ps p)

pub first_by_id-put_self :
    (p : Payment) (ps : List Payment)
    → p.deleted ≡ false
    → first_by_id p.id (put_payment p ps) ≡ ok p
unfolding first_by_id put_payment
first_by_id-put_self p [] h = ground arith
first_by_id-put_self p (q ∷ ps) h = ground (arith, first_by_id-put_self p ps h)

pub first_by_id-put_ne :
    (k : ℕ) (p : Payment) (ps : List Payment)
    → k ≢ p.id
    → first_by_id k (put_payment p ps) ≡ first_by_id k ps
unfolding first_by_id put_payment
first_by_id-put_ne k p [] h = ground arith
first_by_id-put_ne k p (q ∷ ps) h = ground (arith, first_by_id-put_ne k p ps h)

module _ (P : Payment → Type 0) where
  pub first_by_id-All :
      (k : ℕ) (ps : List Payment) (p : Payment) → All P ps → first_by_id k ps ≡ ok p → P p
  unfolding first_by_id
  first_by_id-All k [] p a h = cc
  first_by_id-All k (q ∷ ps) p a h = elim (Bool-cases (q.id == k && not q.deleted)) [
    | inl here ↦ subst P (cc (rw here at h)) a.0
    | inr there ↦ first_by_id-All k ps p a.1 (rw there at h)
  ]

  -- A property of the written row, and of the others, is one of the whole table.
  pub put_payment-All :
      (n : ℕ) (p : Payment) (ps : List Payment)
      → HasKeys n ps
      → All (λ q. q.id ≢ p.id → P q) ps
      → P p
      → All P (put_payment p ps)
  unfolding put_payment
  put_payment-All n p [] k a h = (h, tt)
  put_payment-All n p (q ∷ ps) k a h = elim (Bool-cases (q.id == p.id)) [
    | inl same ↦ rw same (h, others ps k.1 ((==_iff q.id p.id).0 same) a.1)
    | inr differ ↦ rw differ (a.0 (ground arith), put_payment-All n p ps k.2 a.1 h)
  ]
    where
      others :
          (qs : List Payment)
          → All (λ x. x.id ≢ q.id) qs
          → q.id ≡ p.id
          → All (λ x. x.id ≢ p.id → P x) qs
          → All P qs
      others [] d e b = tt
      others (x ∷ qs) d e b = (b.0 (λ s. d.0 (ground (arith, s, e))), others qs d.1 e b.1)

ne-put :
    (k : ℕ) (p : Payment) (ps : List Payment)
    → All (λ q. q.id ≢ k) ps
    → p.id ≢ k
    → All (λ q. q.id ≢ k) (put_payment p ps)
unfolding put_payment
ne-put k p [] a h = (h, tt)
ne-put k p (q ∷ ps) a h = ground (arith, ne-put k p ps a.1 h)

pub put_payment-HasKeys :
    (n : ℕ) (p : Payment) (ps : List Payment)
    → p.id < n
    → HasKeys n ps
    → HasKeys n (put_payment p ps)
unfolding put_payment
put_payment-HasKeys n p [] b h = (b, tt, tt)
put_payment-HasKeys n p (q ∷ ps) b h = elim (Bool-cases (q.id == p.id)) [
  | inl same ↦ rw same (b, subst (λ k. All (λ x. x.id ≢ k) ps) ((==_iff q.id p.id).0 same) h.1, h.2)
  | inr differ ↦
      rw differ (h.0, ne-put q.id p ps h.1 (ground arith), put_payment-HasKeys n p ps b h.2)
]

pub append-HasKeys :
    (n : ℕ) (p : Payment) (ps : List Payment)
    → p.id ≡ n
    → HasKeys n ps
    → HasKeys (n + 1) (ps ++ p ∷ [])
append-HasKeys n p [] e h = (omega arith, tt, tt)
append-HasKeys n p (q ∷ ps) e h =
    (omega arith, All-append _ ps (p ∷ []) h.1 (omega arith, tt), append-HasKeys n p ps e h.2)

pub first_by_id-below :
    (n k : ℕ) (ps : List Payment) (p : Payment) → HasKeys n ps → first_by_id k ps ≡ ok p → k < n
unfolding first_by_id
first_by_id-below n k [] p h e = cc
first_by_id-below n k (q ∷ ps) p h e = ground (arith, first_by_id-below n k ps p h.2)

-- Nothing has been refunded of a payment that no refund can know.
pub refunded_sum-new :
    (k : ℕ) (rs : List Refund) → All (λ r. r.payment_id < k) rs → refunded_sum k rs ≡ pos 0
refunded_sum-new k [] h = refl
refunded_sum-new k (r ∷ rs) h = ground (arith, refunded_sum-new k rs h.1)

pub refunded_sum-append_self :
    (k : ℕ) (rs : List Refund) (r : Refund)
    → r.payment_id ≡ k
    → refunded_sum k (rs ++ r ∷ []) ≡ refunded_sum k rs +ℤ r.amount
refunded_sum-append_self k [] r e = grind int_laws
refunded_sum-append_self k (x ∷ rs) r e = grind (int_laws, refunded_sum-append_self k rs r e)

pub refunded_sum-append_ne :
    (k : ℕ) (rs : List Refund) (r : Refund)
    → r.payment_id ≢ k
    → refunded_sum k (rs ++ r ∷ []) ≡ refunded_sum k rs
refunded_sum-append_ne k [] r e = ground arith
refunded_sum-append_ne k (x ∷ rs) r e = ground (arith, refunded_sum-append_ne k rs r e)
