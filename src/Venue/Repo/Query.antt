-- ===== src/Venue/Repo/Query.antt =====
-- The two lists of internal/repository/venue_repository.go: the filter, the order and the page.
use booking_venue.Base.{
  ℕ, suc, zero, ◌-◌, ◌*◌, ◌%◌, ◌^◌, ℤ, pos, negsuc, Bool, true, false, not, ◌&&◌, Option, none,
  some, List, [], ◌∷◌, ◌==◌, ltb, leb, if◌then◌else◌, filter, take, drop, max_int64, Result, ok,
  ◌>>◌, check,
}
use booking_venue.Clock.HourMinute.{Text}
use booking_venue.Strings.{same_text}
use booking_venue.Venue.Model.{
  VenueType, football, basketball, tennis, gym, swimming, other_type, Venue, VenueError,
}
use booking_venue.Venue.Repo.{Store}

abbrev pub same_type : VenueType → VenueType → Bool
same_type football football = true
same_type basketball basketball = true
same_type tennis tennis = true
same_type gym gym = true
same_type swimming swimming = true
same_type (other_type s) (other_type t) = same_text s t
same_type _ _ = false

abbrev pub same_bool : Bool → Bool → Bool
same_bool b c = if b then c else not c

abbrev pub same_ℤ : ℤ → ℤ → Bool
same_ℤ (pos m) (pos n) = m == n
same_ℤ (negsuc m) (negsuc n) = m == n
same_ℤ _ _ = false

-- Page and limit are `int`s; `none` is a nil pointer.
pub record VenueFilter : Type 0 where
  pub district : Text
  pub venue_type : VenueType
  pub hour_price : ℤ
  pub is_active : Option Bool
  pub owner_id : ℕ
  pub page : ℤ
  pub limit : ℤ

abbrev pub of_district : Text → Text → Bool
of_district [] s = true
of_district (c ∷ t) s = same_text s (c ∷ t)

abbrev pub of_type : VenueType → VenueType → Bool
of_type (other_type []) t = true
of_type u t = same_type t u

abbrev pub of_price : ℤ → ℤ → Bool
of_price (pos zero) p = true
of_price (negsuc n) p = true
of_price (pos (suc n)) p = same_ℤ p (pos (suc n))

abbrev pub of_activity : Option Bool → Bool → Bool
of_activity none a = true
of_activity (some b) a = same_bool a b

abbrev pub of_owner : ℕ → ℕ → Bool
of_owner k o = if ltb 0 k then o == k else true

-- The conditions of the query.
unfoldable pub is_matching : VenueFilter → Venue → Bool
is_matching f v =
    of_district f.district v.district
    && of_type f.venue_type v.venue_type
    && of_price f.hour_price v.hour_price
    && of_activity f.is_active v.is_active
    && of_owner f.owner_id v.owner_id

-- gorm adds its own, on `deleted_at`.
unfoldable pub is_selected : VenueFilter → Venue → Bool
unfolding is_matching
is_selected f v = is_matching f v && not v.deleted

-- `(filter.Page - 1) * filter.Limit` in 64 bits; gorm writes no OFFSET that is not positive.
abbrev pub offset_at : ℕ → ℕ → ℕ
offset_at page limit = let n = (page - 1) * limit % 2 ^ 64 in if leb n max_int64 then n else 0

-- LIMIT and OFFSET
unfoldable pub page_of : ℤ → ℤ → List Venue → List Venue
page_of (pos zero) page vs = vs
page_of (negsuc n) page vs = vs
page_of (pos (suc n)) (pos zero) vs = take (suc n) vs
page_of (pos (suc n)) (negsuc m) vs = take (suc n) vs
page_of (pos (suc n)) (pos (suc m)) vs = take (suc n) (drop (offset_at (suc m) (suc n)) vs)

-- `Order("id DESC")`
unfoldable pub insert_by_id : Venue → List Venue → List Venue
insert_by_id v [] = v ∷ []
insert_by_id v (w ∷ ws) = if ltb v.id w.id then w ∷ insert_by_id v ws else v ∷ w ∷ ws

unfoldable pub newest_first : List Venue → List Venue
unfolding insert_by_id
newest_first [] = []
newest_first (v ∷ vs) = insert_by_id v (newest_first vs)

-- GetList
unfoldable pub list_venues :
    Option VenueError → VenueFilter → Store → Result VenueError (List Venue)
unfolding is_selected page_of newest_first
list_venues fault f st =
    check fault >> ok (page_of f.limit f.page (newest_first (filter (is_selected f) st.venues)))

abbrev pub is_owned_by : ℕ → Venue → Bool
is_owned_by owner v = v.owner_id == owner && not v.deleted

-- GetByOwnerID
unfoldable pub list_owned : Option VenueError → ℕ → Store → Result VenueError (List Venue)
unfolding newest_first
list_owned fault owner st = check fault >> ok (newest_first (filter (is_owned_by owner) st.venues))
