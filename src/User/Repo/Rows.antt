-- ===== src/User/Repo/Rows.antt =====
-- The rows of the table `users` under reads, inserts and saves.
use booking_venue.Base.{
  ℕ, ◌≡◌, ◌≢◌, refl, sym, inl, inr, Bool, true, false, not, ◌&&◌, ◌||◌, Option, List, [], ◌∷◌, ◌++◌,
  ◌==◌, ==_iff, ok, err, arith, All, All-append, Bool-cases, subst,
}
use booking_venue.Clock.HourMinute.{Text}
use booking_venue.Strings.{same_text}
use booking_venue.Strings.Laws.{same_text-ne, same_text_self, same_text→eq}
use booking_venue.User.Model.{User, UserError}
use booking_venue.User.Repo.{
  Store, create_user, has_id, has_email, others_have_email, first_by_id, first_by_email, put_user,
}

-- No two rows, deleted ones included, share an id or an email.
abbrev pub AreDistinct : User → User → Type 0
AreDistinct u v = (v.id ≢ u.id) × (v.email ≢ u.email)

abbrev pub HasKeys : List User → Type 0
HasKeys [] = Unit
HasKeys (u ∷ us) = All (AreDistinct u) us × HasKeys us

-- What the two constraints of an insert know of the rows.
pub absent-All :
    (k : ℕ) (e : Text) (us : List User)
    → (has_id k us || has_email e us) ≡ false
    → All (λ v. (v.id ≢ k) × (v.email ≢ e)) us
unfolding has_id has_email
absent-All k e [] h = tt
absent-All k e (u ∷ us) h = elim (Bool-cases (u.id == k)) [
  | inl same ↦ cc (rw same at h)
  | inr differ ↦ elim (Bool-cases (same_text u.email e)) [
    | inl same ↦ let none_left = rw (differ, same) at h in absurd (clash (has_id k us) none_left)
    | inr other ↦
        ((ground arith, same_text-ne u.email e other), absent-All k e us (rw (differ, other) at h))
  ]
]
  where
    clash : (b : Bool) → (b || true) ≡ false → ⊥
    clash true p = cc p
    clash false p = cc p

-- What the unique index knows of the other rows when a row is saved.
pub others_have_email-All :
    (k : ℕ) (e : Text) (us : List User)
    → others_have_email k e us ≡ false
    → All (λ v. v.id ≢ k → v.email ≢ e) us
unfolding others_have_email
others_have_email-All k e [] h = tt
others_have_email-All k e (u ∷ us) h = elim (Bool-cases (u.id == k)) [
  | inl same ↦ (
    λ differ. absurd (differ ((==_iff u.id k).0 same)),
    others_have_email-All k e us (rw same at h),
  )
  | inr differ ↦ elim (Bool-cases (same_text u.email e)) [
    | inl same ↦ cc (rw (differ, same) at h)
    | inr other ↦
        (λ _. same_text-ne u.email e other, others_have_email-All k e us (rw (differ, other) at h))
  ]
]

pub append-HasKeys :
    (u : User) (us : List User)
    → All (λ v. (v.id ≢ u.id) × (v.email ≢ u.email)) us
    → HasKeys us
    → HasKeys (us ++ u ∷ [])
append-HasKeys u [] a h = (tt, tt)
append-HasKeys u (v ∷ us) a h = (
  All-append (AreDistinct v) us (u ∷ []) h.0 ((λ e. a.0.0 (sym e), λ e. a.0.1 (sym e)), tt),
  append-HasKeys u us a.1 h.1,
)

module _ (P : User → Type 0) where
  pub put_user-All : (u : User) (us : List User) → All P us → P u → All P (put_user u us)
  unfolding put_user
  put_user-All u [] a h = (h, tt)
  put_user-All u (v ∷ us) a h = elim (Bool-cases (v.id == u.id)) [
    | inl same ↦ rw same (h, a.1)
    | inr differ ↦ rw differ (a.0, put_user-All u us a.1 h)
  ]

  pub first_by_id-All :
      (k : ℕ) (us : List User) (u : User) → All P us → first_by_id k us ≡ ok u → P u
  unfolding first_by_id
  first_by_id-All k [] u a h = cc h
  first_by_id-All k (v ∷ us) u a h = elim (Bool-cases (v.id == k && not v.deleted)) [
    | inl here ↦ subst P (cc (rw here at h)) a.0
    | inr there ↦ first_by_id-All k us u a.1 (rw there at h)
  ]

pub put_user-HasKeys :
    (u : User) (us : List User)
    → All (λ v. v.id ≢ u.id → v.email ≢ u.email) us
    → HasKeys us
    → HasKeys (put_user u us)
unfolding put_user
put_user-HasKeys u [] a h = (tt, tt)
put_user-HasKeys u (v ∷ us) a h = elim (Bool-cases (v.id == u.id)) [
  | inl same ↦ rw same (others us ((==_iff v.id u.id).0 same) a.1 h.0, h.1)
  | inr differ ↦ rw differ (
    put_user-All (AreDistinct v) u us h.0 (λ e. ground (arith, e), λ e. a.0 (ground arith) (sym e)),
    put_user-HasKeys u us a.1 h.1,
  )
]
  where
    others :
        (vs : List User)
        → v.id ≡ u.id
        → All (λ w. w.id ≢ u.id → w.email ≢ u.email) vs
        → All (AreDistinct v) vs
        → All (AreDistinct u) vs
    others [] e b d = tt
    others (w ∷ vs) e b d =
        let apart : w.id ≢ u.id = λ s. d.0.0 (ground (arith, s, e)) in
        ((apart, b.0 apart), others vs e b.1 d.1)

pub first_by_id-id :
    (k : ℕ) (us : List User) (u : User) → first_by_id k us ≡ ok u → (u.id ≡ k) × (u.deleted ≡ false)
unfolding first_by_id
first_by_id-id k [] u h = cc h
first_by_id-id k (v ∷ us) u h = ground (arith, first_by_id-id k us u)

pub first_by_id-put_self :
    (u : User) (us : List User) → u.deleted ≡ false → first_by_id u.id (put_user u us) ≡ ok u
unfolding first_by_id put_user
first_by_id-put_self u [] h = ground arith
first_by_id-put_self u (v ∷ us) h = ground (arith, first_by_id-put_self u us h)

pub first_by_id-put_ne :
    (k : ℕ) (u : User) (us : List User)
    → k ≢ u.id
    → first_by_id k (put_user u us) ≡ first_by_id k us
unfolding first_by_id put_user
first_by_id-put_ne k u [] h = ground arith
first_by_id-put_ne k u (v ∷ us) h = ground (arith, first_by_id-put_ne k u us h)

pub first_by_email-live :
    (e : Text) (us : List User) (u : User)
    → first_by_email e us ≡ ok u
    → (u.email ≡ e) × (u.deleted ≡ false)
unfolding first_by_email
first_by_email-live e [] u h = cc h
first_by_email-live e (v ∷ us) u h = elim (Bool-cases (same_text v.email e)) [
  | inl same ↦ elim (Bool-cases v.deleted) [
    | inl gone ↦ first_by_email-live e us u (rw (same, gone) at h)
    | inr live ↦
        let here : v ≡ u = cc (rw (same, live) at h) in
        subst (λ (w : User). (w.email ≡ e) × (w.deleted ≡ false)) here
          (same_text→eq v.email e same, live)
  ]
  | inr other ↦ first_by_email-live e us u (rw other at h)
]

-- A row that is inserted is the one that its email finds.
pub first_by_email-append :
    (u : User) (us : List User)
    → All (λ v. v.email ≢ u.email) us
    → u.deleted ≡ false
    → first_by_email u.email (us ++ u ∷ []) ≡ ok u
unfolding first_by_email
first_by_email-append u [] a h = rw (same_text_self u.email, h) refl
first_by_email-append u (v ∷ us) a h = elim (Bool-cases (same_text v.email u.email)) [
  | inl same ↦ absurd (a.0 (same_text→eq v.email u.email same))
  | inr other ↦ rw other (first_by_email-append u us a.1 h)
]

-- An insert that fails leaves the rows.
pub create_user-err :
    (fault : Option UserError) (u : User) (st : Store) (e : UserError)
    → (create_user fault u st).0 ≡ err e
    → (create_user fault u st).1.users ≡ st.users
unfolding create_user
create_user-err fault u st e h = ground arith
