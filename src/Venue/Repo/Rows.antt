-- ===== src/Venue/Repo/Rows.antt =====
-- The rows of the venue table under an insert, an update and a delete.
use booking_venue.Base.{
  ℕ, ◌≡◌, ◌≢◌, refl, true, false, not, ◌&&◌, List, [], ◌∷◌, ◌++◌, ◌==◌, ok, err, arith, All,
  All-append, Bool-cases, inl, inr,
}
use booking_venue.Venue.Model.{Venue, record_not_found}
use booking_venue.Venue.Repo.{first_venue, update_rows, has_id}

-- No two rows share an id.
abbrev pub HasKeys : List Venue → Type 0
HasKeys [] = Unit
HasKeys (v ∷ vs) = All (λ w. w.id ≢ v.id) vs × HasKeys vs

pub first_venue-id :
    (k : ℕ) (vs : List Venue) (v : Venue)
    → first_venue k vs ≡ ok v
    → (v.id ≡ k) × (v.deleted ≡ false)
unfolding first_venue
first_venue-id k [] v h = cc
first_venue-id k (w ∷ vs) v h = ground (arith, first_venue-id k vs v)

pub first_venue-append_ne :
    (k : ℕ) (vs : List Venue) (v : Venue)
    → v.id ≢ k
    → first_venue k (vs ++ v ∷ []) ≡ first_venue k vs
unfolding first_venue
first_venue-append_ne k [] v h = ground arith
first_venue-append_ne k (w ∷ vs) v h = ground (arith, first_venue-append_ne k vs v h)

pub first_venue-append_new :
    (vs : List Venue) (v : Venue)
    → has_id v.id vs ≡ false
    → v.deleted ≡ false
    → first_venue v.id (vs ++ v ∷ []) ≡ ok v
unfolding first_venue has_id
first_venue-append_new [] v h d = ground arith
first_venue-append_new (w ∷ vs) v h d = ground (arith, first_venue-append_new vs v)

-- What a read finds after one row was changed by an update that keeps ids.
module _ (f : Venue → Venue) (keeps : (v : Venue) → (f v).id ≡ v.id) where
  pub first_venue-update_ne :
      (k j : ℕ) (vs : List Venue) → k ≢ j → first_venue k (update_rows f j vs) ≡ first_venue k vs
  unfolding first_venue update_rows
  first_venue-update_ne k j [] h = refl
  first_venue-update_ne k j (w ∷ vs) h = ground (arith, keeps w, first_venue-update_ne k j vs h)

  pub first_venue-update :
      (k : ℕ) (vs : List Venue) (v : Venue)
      → first_venue k vs ≡ ok v
      → (f v).deleted ≡ false
      → first_venue k (update_rows f k vs) ≡ ok (f v)
  unfolding first_venue update_rows
  first_venue-update k [] v h d = cc
  first_venue-update k (w ∷ vs) v h d = elim (Bool-cases (w.id == k && not w.deleted)) [
    | inl here ↦ ground (arith, here, keeps w, keeps v)
    | inr there ↦ ground (arith, there, first_venue-update k vs v)
  ]

pub first_venue-deleted :
    (k : ℕ) (vs : List Venue)
    → first_venue k (update_rows (λ v. record v { deleted = true }) k vs) ≡ err record_not_found
unfolding first_venue update_rows
first_venue-deleted k [] = refl
first_venue-deleted k (w ∷ vs) = ground (arith, first_venue-deleted k vs)

ne-update :
    (f : Venue → Venue) (keeps : (v : Venue) → (f v).id ≡ v.id) (j k : ℕ) (vs : List Venue)
    → All (λ w. w.id ≢ k) vs
    → All (λ w. w.id ≢ k) (update_rows f j vs)
unfolding update_rows
ne-update f keeps j k [] a = tt
ne-update f keeps j k (w ∷ vs) a = ground (arith, keeps w, ne-update f keeps j k vs)

pub update_rows-HasKeys :
    (f : Venue → Venue) (keeps : (v : Venue) → (f v).id ≡ v.id) (j : ℕ) (vs : List Venue)
    → HasKeys vs
    → HasKeys (update_rows f j vs)
unfolding update_rows
update_rows-HasKeys f keeps j [] h = tt
update_rows-HasKeys f keeps j (w ∷ vs) h = elim (Bool-cases (w.id == j && not w.deleted)) [
  | inl here ↦
      rw (here, keeps w) (ne-update f keeps j w.id vs h.0, update_rows-HasKeys f keeps j vs h.1)
  | inr there ↦ rw there (ne-update f keeps j w.id vs h.0, update_rows-HasKeys f keeps j vs h.1)
]

pub append-HasKeys :
    (v : Venue) (vs : List Venue) → has_id v.id vs ≡ false → HasKeys vs → HasKeys (vs ++ v ∷ [])
unfolding has_id
append-HasKeys v [] h k = (tt, tt)
append-HasKeys v (w ∷ vs) h k =
    (All-append _ vs (v ∷ []) k.0 (ground arith, tt), append-HasKeys v vs (ground arith) k.1)
