-- ===== src/Venue/Directory/Reads.antt =====
-- The five requests that read, as steps of the directory.
use booking_venue.Base.{
  ℕ, ◌≡◌, ◌≢◌, ◌⊎◌, refl, ap, ◌∙◌, inl, inr, true, false, Option, none, some, List, [], ◌∷◌, filter,
  ok, err, arith, Result-cases, Option-cases,
}
use booking_venue.Clock.{Time}
use booking_venue.Clock.HourMinute.{Text}
use booking_venue.Venue.Model.{Venue, VenueError, err_venue_not_found, record_not_found}
use booking_venue.Venue.Repo.{Store, find_venue, first_venue}
use booking_venue.Venue.Repo.Rows.{HasKeys}
use booking_venue.Venue.Repo.Query.{is_selected, is_owned_by, newest_first, list_venues, list_owned}
use booking_venue.Venue.Repo.Listing.{is_selected-live}
use booking_venue.Venue.Service.{Db, get_venue, get_schedule, get_list, get_by_owner_id}
use booking_venue.Venue.Transport.{
  parse_id, GetVenuesQuery, list_filter, handle_list, handle_get, handle_get_schedule, handle_owned,
  list_request, get_request, schedule_request, owned_request,
}
use booking_venue.Venue.Directory.Lists.{listing}
use booking_venue.Venue.Directory.{
  view, Same, getting, getting_schedule, Step, malformed, missing, down, got, got_schedule, listed,
  owned,
}

pub first_venue-err :
    (k : ℕ) (vs : List Venue) (e : VenueError) → first_venue k vs ≡ err e → e ≡ record_not_found
unfolding first_venue
first_venue-err k [] e h = cc h
first_venue-err k (v ∷ vs) e h = ground (arith, first_venue-err k vs e)

-- A read fails with the database, finds no venue, or finds the one of the directory.
pub read-cases :
    (fault : Option VenueError) (k : ℕ) (st : Store)
    → ((fault ≢ none) × (e : VenueError) × (get_venue fault k st ≡ err e))
      ⊎ (((view st).at k ≡ none) × (get_venue fault k st ≡ err err_venue_not_found))
      ⊎ ((v : Venue) × ((view st).at k ≡ some v)
          × (get_venue fault k st ≡ ok v)
          × (first_venue k st.venues ≡ ok v))
unfolding get_venue find_venue
read-cases (some record_not_found) k st = inl (λ q. cc q, _, refl)
read-cases (some e) k st = elim (Result-cases (get_venue (some e) k st)) [
  | inl (x, bad) ↦ inl (λ q. cc q, x, bad)
  | inr (v, good) ↦ inl (λ q. cc q, _, refl)
]
read-cases none k st = elim (Result-cases (first_venue k st.venues)) [
  | inl (e, bad) ↦
      let gone = bad ∙ ap err (first_venue-err k st.venues e bad) in
      inr (inl (rw gone refl, rw gone refl))
  | inr (v, good) ↦ inr (inr (v, rw good refl, rw good refl, good))
]

owned_by :
    (owner : ℕ) (v : Venue)
    → is_owned_by owner v ≡ true
    → (v.deleted ≡ false) × (v.owner_id ≡ owner)
owned_by owner v h = ground (arith, h)

module _ (db : Db) (now : Time) (st : Store) where
  still : Same (view st) (view st)
  still j = (refl, refl)

  pub get-step :
      (id : Text) → Step db now (view st) (view st) (get_request id) (handle_get db id st)
  unfolding handle_get
  get-step id = elim (Result-cases (parse_id id)) [
    | inl (e, bad) ↦ rw (bad, handle_get) (malformed e (rw bad refl) still)
    | inr (k, pk) ↦ elim (read-cases db.read_fault k st) [
      | inl (fault, e, bad) ↦ rw (pk, handle_get, bad) (down (inl fault) (e, inl refl) still)
      | inr (inl (gone, bad)) ↦
          rw (pk, handle_get, bad) (missing k getting pk (rw pk refl) gone still)
      | inr (inr (v, here, good, _)) ↦ rw (pk, handle_get, good) (got k v pk here still)
    ]
  ]

  same_read : (k : ℕ) → get_schedule db.read_fault k st ≡ get_venue db.read_fault k st
  unfolding get_schedule get_venue
  same_read k = refl

  pub get_schedule-step :
      (id : Text)
      → Step db now (view st) (view st) (schedule_request id) (handle_get_schedule db id st)
  unfolding handle_get_schedule
  get_schedule-step id = elim (Result-cases (parse_id id)) [
    | inl (e, bad) ↦ rw (bad, handle_get_schedule) (malformed e (rw bad refl) still)
    | inr (k, pk) ↦ elim (read-cases db.read_fault k st) [
      | inl (fault, e, bad) ↦
          rw (pk, handle_get_schedule, same_read k ∙ bad) (down (inl fault) (e, inl refl) still)
      | inr (inl (gone, bad)) ↦
          rw (pk, handle_get_schedule, same_read k ∙ bad)
            (missing k getting_schedule pk (rw pk refl) gone still)
      | inr (inr (v, here, good, _)) ↦
          rw (pk, handle_get_schedule, same_read k ∙ good) (got_schedule k v pk here still)
    ]
  ]

  pub list-step :
      (q : Option GetVenuesQuery)
      → HasKeys st.venues
      → Step db now (view st) (view st) (list_request q) (handle_list db q st)
  unfolding handle_list get_list list_venues
  list-step q keys = elim (Result-cases (list_filter q)) [
    | inl (e, bad) ↦ rw (bad, handle_list) (malformed e (rw bad refl) still)
    | inr (f, pf) ↦ elim (Option-cases db.read_fault) [
      | inr (e, fault) ↦ rw (pf, handle_list, fault) (down (inl (λ z. cc z)) (e, inr refl) still)
      | inl free ↦
          let vs = newest_first (filter (is_selected f) st.venues) in
          let all =
            listing (is_selected f) (λ v. is_selected f v ≡ true) st keys
              (λ v k. (is_selected-live f v k, k)) (λ v live h. h) in
          rw (pf, handle_list, free) (listed f vs pf all still)
    ]
  ]

  pub owned-step :
      (id : Text)
      → HasKeys st.venues
      → Step db now (view st) (view st) (owned_request id) (handle_owned db id st)
  unfolding handle_owned get_by_owner_id list_owned
  owned-step id keys = elim (Result-cases (parse_id id)) [
    | inl (e, bad) ↦ rw (bad, handle_owned) (malformed e (rw bad refl) still)
    | inr (k, pk) ↦ elim (Option-cases db.read_fault) [
      | inr (e, fault) ↦ rw (pk, handle_owned, fault) (down (inl (λ z. cc z)) (e, inr refl) still)
      | inl free ↦
          let all =
            listing (is_owned_by k) (λ v. v.owner_id ≡ k) st keys (owned_by k)
              (λ v live h. ground (arith, live, h)) in
          rw (pk, handle_owned, free)
            (owned k (newest_first (filter (is_owned_by k) st.venues)) pk all still)
    ]
  ]
