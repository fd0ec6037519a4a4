-- ===== src/Venue/Directory/Effects.antt =====
-- What a write does to the directory, and why one fails.
use booking_venue.Base.{
  ℕ, ◌≡◌, ◌≢◌, ◌⊎◌, refl, sym, ap, ◌∙◌, inl, inr, true, Option, none, some, List, [], ◌∷◌, ◌++◌,
  Result, ok, err, check, arith, Result-cases, Option-cases, Bool-cases, >>=-eq-ok,
}
use booking_venue.Clock.{Time}
use booking_venue.Venue.Model.{Weekdays, Venue, VenueError, validate_venue}
use booking_venue.Venue.Repo.{
  Store, has_id, find_venue, first_venue, new_venue, set_columns, is_negative, create_venue,
  update_venue, delete_venue, update_rows,
}
use booking_venue.Venue.Service.{Db, get_venue, replace, create, update, delete, update_schedule}
use booking_venue.Venue.Service.Effects.{Others, update_venue-ok}
use booking_venue.Venue.Transport.Frame.{create_venue-keeps}
use booking_venue.Venue.Transport.{Body, reread}
use booking_venue.Venue.Directory.{found, view, Same, ChangesOnly, IsInvalid, after_write}

-- A table that is the same reads the same.
pub Same-view : (st st' : Store) → st'.venues ≡ st.venues → Same (view st) (view st')
unfolding get_venue find_venue
Same-view st st' e j = (rw e refl, rw e refl)

has_id-update :
    (f : Venue → Venue) (keeps : (v : Venue) → (f v).id ≡ v.id) (j k : ℕ) (vs : List Venue)
    → has_id j (update_rows f k vs) ≡ has_id j vs
unfolding has_id update_rows
has_id-update f keeps j k [] = refl
has_id-update f keeps j k (v ∷ vs) = ground (arith, keeps v, has_id-update f keeps j k vs)

pub has_id-append_ne :
    (j : ℕ) (vs : List Venue) (v : Venue) → j ≢ v.id → has_id j (vs ++ v ∷ []) ≡ has_id j vs
unfolding has_id
has_id-append_ne j [] v ne = ground (arith, ne)
has_id-append_ne j (w ∷ vs) v ne = rw (has_id-append_ne j vs v ne) refl

-- Why an update of the repository fails.
pub update_venue-fails :
    (column : Time → Time) (fault : Option VenueError) (v : Venue) (st : Store) (e : VenueError)
    → update_venue column fault v st ≡ err e
    → (fault ≢ none) ⊎ IsInvalid v
unfolding update_venue
update_venue-fails column fault v st e h = elim (Result-cases (validate_venue v)) [
  | inl (x, bad) ↦ inr (inl (λ z. cc (bad, z)))
  | inr (u, good) ↦ elim (Option-cases fault) [
    | inr (x, f) ↦ inl (λ z. cc (f, z))
    | inl f ↦ elim (Bool-cases (is_negative v.hour_price)) [
      | inl negative ↦ inr (inr negative)
      | inr fine ↦ absurd (cc (rw (good, f, fine, update_venue) at h))
    ]
  ]
]

pub update_venue-taken :
    (column : Time → Time) (fault : Option VenueError) (v : Venue) (st st' : Store) (j : ℕ)
    → update_venue column fault v st ≡ ok st'
    → has_id j st'.venues ≡ has_id j st.venues
unfolding set_columns
update_venue-taken column fault v st st' j h =
    let (_, _, after) = update_venue-ok column fault v st st' h in
    ap (λ s. has_id j s.venues) after
    ∙ has_id-update (set_columns column v) (λ x. refl) j v.id st.venues

module _ (db : Db) (k : ℕ) (st : Store) where
  pub update-failed :
      (v : Venue) (e : VenueError) → get_venue db.read_fault k st ≡ err e → update db k v st ≡ err e
  unfolding update get_venue
  update-failed v e h = rw h refl

  pub update-read :
      (v old : Venue)
      → get_venue db.read_fault k st ≡ ok old
      → update db k v st ≡ update_venue db.column db.write_fault (replace v old) st
  unfolding update get_venue
  update-read v old h = rw h refl

  pub update_schedule-failed :
      (w : Weekdays) (e : VenueError)
      → get_venue db.read_fault k st ≡ err e
      → update_schedule db k w st ≡ err e
  unfolding update_schedule get_venue
  update_schedule-failed w e h = rw h refl

  pub update_schedule-read :
      (w : Weekdays) (old : Venue)
      → get_venue db.read_fault k st ≡ ok old
      → update_schedule db k w st
        ≡ update_venue db.column db.write_fault (record old { weekdays = w }) st
  unfolding update_schedule get_venue
  update_schedule-read w old h = rw h refl

  pub delete-failed :
      (e : VenueError) → get_venue db.read_fault k st ≡ err e → delete db k st ≡ err e
  unfolding delete get_venue
  delete-failed e h = rw h refl

  pub delete-read :
      (old : Venue)
      → get_venue db.read_fault k st ≡ ok old
      → delete db k st ≡ delete_venue db.write_fault k st
  unfolding delete get_venue
  delete-read old h = rw h refl

-- A delete of a venue that was read fails with the database only.
pub delete_venue-fails :
    (fault : Option VenueError) (k : ℕ) (old : Venue) (st : Store) (e : VenueError)
    → first_venue k st.venues ≡ ok old
    → delete_venue fault k st ≡ err e
    → fault ≢ none
unfolding delete_venue
delete_venue-fails none k old st e row h = absurd (cc (rw (row, delete_venue) at h))
delete_venue-fails (some x) k old st e row h = λ z. cc z

pub delete_venue-taken :
    (fault : Option VenueError) (k : ℕ) (st st' : Store) (j : ℕ)
    → delete_venue fault k st ≡ ok st'
    → has_id j st'.venues ≡ has_id j st.venues
unfolding delete_venue
delete_venue-taken fault k st st' j h =
    let (u, free, h₁) = >>=-eq-ok (check fault) _ h in
    let (row, again, h₂) = >>=-eq-ok (first_venue k st.venues) _ h₁ in
    let mark : Venue → Venue = λ v. record v { deleted = true } in
    let same : record st { venues = update_rows mark k st.venues } ≡ st' = cc h₂ in
    ap (λ (s : Store). has_id j s.venues) (sym same) ∙ has_id-update mark (λ x. refl) j k st.venues

-- Why a create fails.
pub create-fails :
    (db : Db) (v : Venue) (st st' : Store) (e : VenueError)
    → create db v st ≡ (err e, st')
    → IsInvalid v ⊎ (db.write_fault ≢ none) ⊎ (has_id (new_venue st.next_id v).id st.venues ≡ true)
unfolding create create_venue
create-fails db v st st' e h = elim (Result-cases (validate_venue v)) [
  | inl (x, bad) ↦ inl (inl (λ z. cc (bad, z)))
  | inr (u, good) ↦ elim (Option-cases db.write_fault) [
    | inr (x, f) ↦ inr (inl (λ z. cc (f, z)))
    | inl f ↦ elim (Bool-cases (is_negative v.hour_price)) [
      | inl negative ↦ inl (inr negative)
      | inr fine ↦ elim (Bool-cases (has_id (new_venue st.next_id v).id st.venues)) [
        | inl clash ↦ inr (inr clash)
        | inr fresh ↦ absurd (cc (rw (good, f, fine, fresh, create_venue) at h))
      ]
    ]
  ]
]

-- The response to a write that has left this row.
pub reread-row :
    (fault : Option VenueError) (body : Venue → Body) (k : ℕ) (st : Store) (row : Venue)
    → get_venue none k st ≡ ok row
    → reread body (get_venue fault k st) ≡ after_write fault (body row)
unfolding get_venue find_venue
reread-row none body k st row h = rw h refl
reread-row (some e) body k st row h = ground arith

-- What is read of the other venues, as the directory shows it.
pub others-view :
    (k : ℕ) (st st' : Store)
    → Others k st st'
    → ((j : ℕ) → has_id j st'.venues ≡ has_id j st.venues)
    → ChangesOnly k (view st) (view st')
others-view k st st' others taken j ne = (ap found (others j ne), taken j)

pub create-keeps_table :
    (db : Db) (v : Venue) (st : Store) (e : VenueError) (st' : Store)
    → create db v st ≡ (err e, st')
    → st'.venues ≡ st.venues
create-keeps_table db v st e st' h =
    sym (ap (λ (out : Result VenueError Venue × Store). out.1.venues) h)
    ∙ create_venue-keeps db v st e (ap (λ (out : Result VenueError Venue × Store). out.0) h)
