-- ===== src/Venue/Directory/Lists.antt =====
-- The rows of a list, as the directory has them.
use booking_venue.Base.{
  ℕ, ◌≡◌, ◌≢◌, refl, sym, ap, ◌∙◌, inl, inr, Bool, true, false, not, ◌&&◌, ltb, ◌||◌, ◌==◌, some,
  List, [], ◌∷◌, All, All-filter, All-map, filter, ok, arith, Result-cases, Bool-cases,
}
use booking_venue.Venue.Model.{Venue}
use booking_venue.Venue.Repo.{Store, find_venue, first_venue, has_id}
use booking_venue.Venue.Repo.Rows.{HasKeys, first_venue-id}
use booking_venue.Venue.Repo.Query.{newest_first, insert_by_id}
use booking_venue.Venue.Repo.Listing.{insert_by_id-All, newest_first-All, newest_first-IsDescending}
use booking_venue.Venue.Service.{get_venue}
use booking_venue.Venue.Directory.{view, IsListing}

module _ (w : Venue) (whole : List Venue) where
  behind :
      (vs : List Venue)
      → All (λ v. v.id ≢ w.id) vs
      → All (λ v. v.deleted ≡ false → first_venue v.id whole ≡ ok v) vs
      → All (λ v. v.deleted ≡ false → first_venue v.id (w ∷ whole) ≡ ok v) vs
  unfolding first_venue
  behind [] a b = tt
  behind (v ∷ vs) a b =
      let other = a.0 in
      let there = b.0 in (λ live. ground (arith, other, there live), behind vs a.1 b.1)

-- Where no two rows share an id, a read by its id finds each live row.
live-found :
    (vs : List Venue) → HasKeys vs → All (λ v. v.deleted ≡ false → first_venue v.id vs ≡ ok v) vs
unfolding first_venue
live-found [] k = tt
live-found (w ∷ vs) k = (λ live. ground (arith, live), behind w vs vs k.0 (live-found vs k.1))

module _ (P : Venue → Type 0) where
  chosen :
      (st : Store) (vs : List Venue)
      → All (λ v. v.deleted ≡ false → first_venue v.id st.venues ≡ ok v) vs
      → (p : Venue → Bool) → ((v : Venue) → p v ≡ true → (v.deleted ≡ false) × P v)
      → All (λ v. p v ≡ true → ((view st).at v.id ≡ some v) × P v) vs
  unfolding get_venue find_venue
  chosen st [] a p good = tt
  chosen st (v ∷ vs) a p good =
      (λ h. let (live, q) = good v h in (rw (a.0 live) refl, q), chosen st vs a.1 p good)

filter-HasKeys : (p : Venue → Bool) (vs : List Venue) → HasKeys vs → HasKeys (filter p vs)
unfolding filter
filter-HasKeys p [] k = tt
filter-HasKeys p (v ∷ vs) k = elim (Bool-cases (p v)) [
  | inl kept ↦
      rw kept (All-filter _ p vs (All-map _ _ vs (λ x ne q. ne) k.0), filter-HasKeys p vs k.1)
  | inr dropped ↦ rw dropped (filter-HasKeys p vs k.1)
]

insert_by_id-HasKeys :
    (v : Venue) (vs : List Venue)
    → All (λ w. w.id ≢ v.id) vs
    → HasKeys vs
    → HasKeys (insert_by_id v vs)
unfolding insert_by_id
insert_by_id-HasKeys v [] a k = (tt, tt)
insert_by_id-HasKeys v (w ∷ vs) a k = elim (Bool-cases (ltb v.id w.id)) [
  | inl less ↦ rw less (
    insert_by_id-All (λ x. x.id ≢ w.id) v vs (λ e. a.0 (sym e)) k.0,
    insert_by_id-HasKeys v vs a.1 k.1,
  )
  | inr more ↦ rw more (a, k)
]

newest_first-HasKeys : (vs : List Venue) → HasKeys vs → HasKeys (newest_first vs)
unfolding newest_first
newest_first-HasKeys [] k = tt
newest_first-HasKeys (v ∷ vs) k =
    insert_by_id-HasKeys v (newest_first vs) (newest_first-All _ vs k.0)
      (newest_first-HasKeys vs k.1)

has_id-insert :
    (j : ℕ) (v : Venue) (vs : List Venue) → has_id j (insert_by_id v vs) ≡ has_id j (v ∷ vs)
unfolding has_id insert_by_id
has_id-insert j v [] = refl
has_id-insert j v (w ∷ vs) = ground (arith, has_id-insert j v vs)

has_id-newest_first : (j : ℕ) (vs : List Venue) → has_id j (newest_first vs) ≡ has_id j vs
unfolding newest_first has_id
has_id-newest_first j [] = refl
has_id-newest_first j (v ∷ vs) =
    has_id-insert j v (newest_first vs) ∙ ap (λ b. v.id == j || b) (has_id-newest_first j vs)

-- A row that a read finds is kept by a filter that selects it.
has_id-filter :
    (p : Venue → Bool) (j : ℕ) (v : Venue) (vs : List Venue)
    → first_venue j vs ≡ ok v
    → p v ≡ true
    → has_id j (filter p vs) ≡ true
unfolding has_id first_venue filter
has_id-filter p j v [] h q = cc h
has_id-filter p j v (w ∷ vs) h q = elim (Bool-cases (w.id == j && not w.deleted)) [
  | inl here ↦
      let same : w ≡ v = cc (rw here at h) in
      let chosen_too : p w ≡ true = ap p same ∙ q in
      let at_j : w.id == j ≡ true = ground (arith, here) in rw chosen_too (rw at_j refl)
  | inr there ↦
      let behind_it = has_id-filter p j v vs (rw there at h) q in
      elim (Bool-cases (p w)) [
        | inl kept ↦ rw kept (rw behind_it (ground arith))
        | inr dropped ↦ rw dropped behind_it
      ]
]

found-row :
    (j : ℕ) (v : Venue) (st : Store) → (view st).at j ≡ some v → first_venue j st.venues ≡ ok v
unfolding get_venue find_venue
found-row j v st h = elim (Result-cases (first_venue j st.venues)) [
  | inl (e, bad) ↦ ground (arith, bad, h)
  | inr (w, good) ↦ ground (arith, good, h)
]

module _ (p : Venue → Bool) (P : Venue → Type 0) where
  -- The rows that a filter selects, newest first, are all the readable venues of its kind.
  pub listing :
      (st : Store)
      → HasKeys st.venues
      → ((v : Venue) → p v ≡ true → (v.deleted ≡ false) × P v)
      → ((v : Venue) → v.deleted ≡ false → P v → p v ≡ true)
      → IsListing (view st) P (newest_first (filter p st.venues))
  listing st keys good back =
      let kept = filter p st.venues in
      (
        newest_first-All _ kept
            (All-filter _ p st.venues (chosen P st st.venues (live-found st.venues keys) p good)),
        λ j v here q.
            let row = found-row j v st here in
            has_id-newest_first j kept
            ∙ has_id-filter p j v st.venues row (back v (first_venue-id j st.venues v row).1 q),
        newest_first-HasKeys kept (filter-HasKeys p st.venues keys),
        newest_first-IsDescending kept,
      )
