-- ===== src/Venue/Repo/Listing.antt =====
-- What GetList and GetByOwnerID return.
use booking_venue.Base.{
  ℕ, zero, suc, ◌≤◌, ◌≡◌, Bool, true, false, not, Option, none, some, List, [], ◌∷◌, ok, All,
  All-filter, All-map, All-take, All-drop, length-take, filter, length, take, drop, ltb, arith, ℤ,
  pos, negsuc, Bool-cases, inl, inr, subst, ◌&&◌,
}
use booking_venue.Venue.Model.{Venue, VenueError}
use booking_venue.Venue.Repo.{Store}
use booking_venue.Venue.Repo.Query.{
  VenueFilter, is_matching, is_selected, page_of, insert_by_id, newest_first, list_venues,
  offset_at,
}

-- Newest first: no row stands after one with a lesser id.
abbrev pub IsDescending : List Venue → Type 0
IsDescending [] = Unit
IsDescending (v ∷ vs) = All (λ w. w.id ≤ v.id) vs × IsDescending vs

module _ (P : Venue → Type 0) where
  pub insert_by_id-All : (v : Venue) (vs : List Venue) → P v → All P vs → All P (insert_by_id v vs)
  unfolding insert_by_id
  insert_by_id-All v [] h a = (h, tt)
  insert_by_id-All v (w ∷ vs) h a = elim (Bool-cases (ltb v.id w.id)) [
    | inl less ↦ rw less (a.0, insert_by_id-All v vs h a.1)
    | inr more ↦ rw more (h, a)
  ]

  pub newest_first-All : (vs : List Venue) → All P vs → All P (newest_first vs)
  unfolding newest_first
  newest_first-All [] a = tt
  newest_first-All (v ∷ vs) a = insert_by_id-All v (newest_first vs) a.0 (newest_first-All vs a.1)

insert_by_id-IsDescending :
    (v : Venue) (vs : List Venue) → IsDescending vs → IsDescending (insert_by_id v vs)
unfolding insert_by_id
insert_by_id-IsDescending v [] d = (tt, tt)
insert_by_id-IsDescending v (w ∷ vs) d = elim (Bool-cases (ltb v.id w.id)) [
  | inl less ↦ rw less (
    insert_by_id-All (λ x. x.id ≤ w.id) v vs (ground (arith, less)) d.0,
    insert_by_id-IsDescending v vs d.1,
  )
  | inr more ↦
      let first : w.id ≤ v.id = ground (arith, more) in
      rw more ((first, All-map _ _ vs (λ x l. omega (arith, first, l)) d.0), d)
]

pub newest_first-IsDescending : (vs : List Venue) → IsDescending (newest_first vs)
unfolding newest_first
newest_first-IsDescending [] = tt
newest_first-IsDescending (v ∷ vs) =
    insert_by_id-IsDescending v (newest_first vs) (newest_first-IsDescending vs)

take-IsDescending : (n : ℕ) (vs : List Venue) → IsDescending vs → IsDescending (take n vs)
take-IsDescending zero vs d = tt
take-IsDescending (suc n) [] d = tt
take-IsDescending (suc n) (v ∷ vs) d = (All-take _ n vs d.0, take-IsDescending n vs d.1)

drop-IsDescending : (n : ℕ) (vs : List Venue) → IsDescending vs → IsDescending (drop n vs)
drop-IsDescending zero vs d = d
drop-IsDescending (suc n) [] d = tt
drop-IsDescending (suc n) (v ∷ vs) d = drop-IsDescending n vs d.1

pub page_of-All :
    (P : Venue → Type 0) (limit page : ℤ) (vs : List Venue)
    → All P vs
    → All P (page_of limit page vs)
unfolding page_of
page_of-All P (pos zero) page vs a = a
page_of-All P (negsuc n) page vs a = a
page_of-All P (pos (suc n)) (pos zero) vs a = All-take P (suc n) vs a
page_of-All P (pos (suc n)) (negsuc m) vs a = All-take P (suc n) vs a
page_of-All P (pos (suc n)) (pos (suc m)) vs a =
    All-take P (suc n) (drop (offset_at (suc m) (suc n)) vs)
      (All-drop P (offset_at (suc m) (suc n)) vs a)

page_of-IsDescending :
    (limit page : ℤ) (vs : List Venue) → IsDescending vs → IsDescending (page_of limit page vs)
unfolding page_of
page_of-IsDescending (pos zero) page vs d = d
page_of-IsDescending (negsuc n) page vs d = d
page_of-IsDescending (pos (suc n)) (pos zero) vs d = take-IsDescending (suc n) vs d
page_of-IsDescending (pos (suc n)) (negsuc m) vs d = take-IsDescending (suc n) vs d
page_of-IsDescending (pos (suc n)) (pos (suc m)) vs d =
    take-IsDescending (suc n) (drop (offset_at (suc m) (suc n)) vs)
      (drop-IsDescending (offset_at (suc m) (suc n)) vs d)

page_of-length :
    (n : ℕ) (page : ℤ) (vs : List Venue) → length (page_of (pos (suc n)) page vs) ≤ suc n
unfolding page_of
page_of-length n (pos zero) vs = length-take (suc n) vs
page_of-length n (negsuc m) vs = length-take (suc n) vs
page_of-length n (pos (suc m)) vs = length-take (suc n) (drop (offset_at (suc m) (suc n)) vs)

and_right : (a b : Bool) → (a && b) ≡ true → b ≡ true
and_right true b h = h
and_right false b h = cc

pub is_selected-live : (f : VenueFilter) (v : Venue) → is_selected f v ≡ true → v.deleted ≡ false
unfolding is_selected
is_selected-live f v h = elim (Bool-cases v.deleted) [
  | inl d ↦ absurd (cc (d, and_right (is_matching f v) (not v.deleted) h))
  | inr d ↦ d
]

selected :
    (f : VenueFilter) (vs : List Venue)
    → All (λ v. is_selected f v ≡ true → (is_selected f v ≡ true) × (v.deleted ≡ false)) vs
selected f [] = tt
selected f (v ∷ vs) = (λ h. (h, is_selected-live f v h), selected f vs)

-- A list that GetList returns holds only venues that the filter selects, which are not deleted, in the
-- order of their ids with the newest first, and no more of them than a positive limit.
pub list_venues-page :
    (fault : Option VenueError) (f : VenueFilter) (st : Store) (vs : List Venue)
    → list_venues fault f st ≡ ok vs
    → All (λ v. (is_selected f v ≡ true) × (v.deleted ≡ false)) vs
      × IsDescending vs
      × ((n : ℕ) → f.limit ≡ pos (suc n) → length vs ≤ suc n)
unfolding list_venues
list_venues-page (some e) f st vs h = cc h
list_venues-page none f st vs h =
    let kept = filter (is_selected f) st.venues in
    let page = page_of f.limit f.page (newest_first kept) in
    let same : page ≡ vs = cc h in
    subst
      (λ x.
        All (λ v. (is_selected f v ≡ true) × (v.deleted ≡ false)) x
        × IsDescending x
        × ((n : ℕ) → f.limit ≡ pos (suc n) → length x ≤ suc n))
      same
      (
        page_of-All _ f.limit f.page (newest_first kept) (
            newest_first-All _ kept
              (All-filter _ (is_selected f) st.venues (selected f st.venues))),
        page_of-IsDescending f.limit f.page (newest_first kept) (newest_first-IsDescending kept),
        λ n e. rw e (page_of-length n f.page (newest_first kept)),
      )
