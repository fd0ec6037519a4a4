-- ===== src/Reservation/Repo/Rows.antt =====
-- The rows of the table `reservation_details` under a read, a write and an insert.
use booking_venue.Base.{
  ℕ, ◌+◌, ◌<◌, ◌≡◌, ◌≢◌, false, List, [], ◌∷◌, ◌++◌, ok, arith, All, All-append, ◌==◌, ==_iff,
  Bool-cases, inl, inr, subst, not, ◌&&◌,
}
use booking_venue.Reservation.Model.{ReservationDetails}
use booking_venue.Reservation.Repo.{find, put}

-- Every id is below the sequence's next value, and no two rows share an id.
abbrev pub HasKeys : {F : Type 0} → ℕ → List (ReservationDetails F) → Type 0
HasKeys n [] = Unit
HasKeys n (d ∷ ds) = (d.id < n) × All (λ x. x.id ≢ d.id) ds × HasKeys n ds

module _ {F : Type 0} where
  pub find-id :
      (k : ℕ) (ds : List (ReservationDetails F)) (d : ReservationDetails F)
      → find k ds ≡ ok d
      → (d.id ≡ k) × (d.deleted ≡ false)
  unfolding find
  find-id k [] d h = cc
  find-id k (x ∷ ds) d h = ground (arith, find-id k ds d)

  pub find-put_self :
      (d : ReservationDetails F) (ds : List (ReservationDetails F))
      → d.deleted ≡ false
      → find d.id (put d ds) ≡ ok d
  unfolding find put
  find-put_self d [] h = ground arith
  find-put_self d (x ∷ ds) h = ground (arith, find-put_self d ds h)

  pub find-put_ne :
      (j : ℕ) (d : ReservationDetails F) (ds : List (ReservationDetails F))
      → j ≢ d.id
      → find j (put d ds) ≡ find j ds
  unfolding find put
  find-put_ne j d [] h = ground arith
  find-put_ne j d (x ∷ ds) h = ground (arith, find-put_ne j d ds h)

  -- An insert leaves every booking that can be found as it is.
  pub find-append :
      (j : ℕ) (d : ReservationDetails F) (ds : List (ReservationDetails F))
      (x : ReservationDetails F)
      → find j ds ≡ ok x
      → find j (ds ++ d ∷ []) ≡ ok x
  unfolding find
  find-append j d [] x h = cc
  find-append j d (y ∷ ds) x h = ground (arith, find-append j d ds x)

  All-put :
      (k : ℕ) (d : ReservationDetails F) (ds : List (ReservationDetails F))
      → All (λ x. x.id ≢ k) ds
      → d.id ≢ k
      → All (λ x. x.id ≢ k) (put d ds)
  unfolding put
  All-put k d [] a h = (h, tt)
  All-put k d (x ∷ ds) a h = ground (arith, All-put k d ds a.1 h)

  All-below : (n : ℕ) (ds : List (ReservationDetails F)) → HasKeys n ds → All (λ x. x.id ≢ n) ds
  All-below n [] h = tt
  All-below n (x ∷ ds) h = (omega arith, All-below n ds h.2)

  pub put-HasKeys :
      (n : ℕ) (d : ReservationDetails F) (ds : List (ReservationDetails F))
      → d.id < n
      → HasKeys n ds
      → HasKeys n (put d ds)
  unfolding put
  put-HasKeys n d [] b h = (b, tt, tt)
  put-HasKeys n d (x ∷ ds) b h = elim (Bool-cases (x.id == d.id)) [
    | inl same ↦
        rw same (b, subst (λ k. All (λ y. y.id ≢ k) ds) ((==_iff x.id d.id).0 same) h.1, h.2)
    | inr differ ↦ rw differ (h.0, All-put x.id d ds h.1 (ground arith), put-HasKeys n d ds b h.2)
  ]

  pub append-HasKeys :
      (n : ℕ) (d : ReservationDetails F) (ds : List (ReservationDetails F))
      → d.id ≡ n
      → HasKeys n ds
      → HasKeys (n + 1) (ds ++ d ∷ [])
  append-HasKeys n d [] e h = (omega arith, tt, tt)
  append-HasKeys n d (x ∷ ds) e h =
      (omega arith, All-append _ ds (d ∷ []) h.1 (omega arith, tt), append-HasKeys n d ds e h.2)

  pub find-below :
      (n k : ℕ) (ds : List (ReservationDetails F)) (d : ReservationDetails F)
      → HasKeys n ds
      → find k ds ≡ ok d
      → k < n
  unfolding find
  find-below n k [] d h e = cc
  find-below n k (x ∷ ds) d h e = ground (arith, find-below n k ds d h.2)

module _ {F : Type 0} (P : ReservationDetails F → Type 0) where
  pub put-All :
      (d : ReservationDetails F) (ds : List (ReservationDetails F))
      → All P ds
      → P d
      → All P (put d ds)
  unfolding put
  put-All d [] a h = (h, tt)
  put-All d (x ∷ ds) a h = elim (Bool-cases (x.id == d.id)) [
    | inl same ↦ rw same (h, a.1)
    | inr differ ↦ rw differ (a.0, put-All d ds a.1 h)
  ]

  pub find-All :
      (k : ℕ) (ds : List (ReservationDetails F)) (d : ReservationDetails F)
      → All P ds
      → find k ds ≡ ok d
      → P d
  unfolding find
  find-All k [] d a h = cc
  find-All k (x ∷ ds) d a h = elim (Bool-cases (x.id == k && not x.deleted)) [
    | inl here ↦ subst P (cc (rw (here) at h)) a.0
    | inr there ↦ find-All k ds d a.1 (rw there at h)
  ]
