-- ===== src/Venue/Service/Effects.antt =====
-- What the writes of the venue service do to the table, as its reads see it.
use booking_venue.Base.{
  ℕ, ◌≡◌, ◌≢◌, refl, true, false, Option, none, some, Result, ok, err, check, arith, All, >>=-eq-ok,
  sym, ap, ◌∙◌, subst,
}
use booking_venue.Clock.{Time}
use booking_venue.Venue.Model.{
  is_valid, Weekdays, Venue, VenueError, err_venue_not_found, validate_venue, days_of,
}
use booking_venue.Venue.Model.Days.{IsDay, validate_venue_iff}
use booking_venue.Venue.Repo.{
  Store, find_venue, first_venue, update_rows, set_columns, update_venue, delete_venue,
  week_columns, is_negative,
}
use booking_venue.Venue.Repo.Rows.{
  first_venue-id, first_venue-update, first_venue-update_ne, first_venue-deleted,
}
use booking_venue.Venue.Service.{
  Db, translate, get_venue, get_schedule, replace, update, delete, update_schedule,
}

ok_unique : {r : Result VenueError Store} {a b : Store} → r ≡ ok a → r ≡ ok b → a ≡ b
ok_unique h k = cc

-- A write's error is returned before the table is touched; its success is one change of one row.
pub update_venue-ok :
    (column : Time → Time) (fault : Option VenueError) (v : Venue) (st st' : Store)
    → update_venue column fault v st ≡ ok st'
    → (validate_venue v ≡ ok tt)
      × (is_negative v.hour_price ≡ false)
      × (st' ≡ record st { venues = update_rows (set_columns column v) v.id st.venues })
unfolding update_venue
update_venue-ok column fault v st st' h =
    let (u, valid, h₁) = >>=-eq-ok (validate_venue v) _ h in
    (valid, ground (arith, valid), ground (arith, valid))

pub translate-ok : (r : Result VenueError Venue) (v : Venue) → translate r ≡ ok v → r ≡ ok v
translate-ok (ok v) w h = h
translate-ok (err e) w h = ground arith

pub get_venue-found :
    (k : ℕ) (st : Store) (v : Venue) → first_venue k st.venues ≡ ok v → get_venue none k st ≡ ok v
unfolding get_venue find_venue
get_venue-found k st v h = rw h refl

pub find_venue-ok :
    (fault : Option VenueError) (k : ℕ) (st : Store) (v : Venue)
    → translate (find_venue fault k st) ≡ ok v
    → first_venue k st.venues ≡ ok v
unfolding find_venue
find_venue-ok none k st v h = translate-ok (first_venue k st.venues) v h
find_venue-ok (some e) k st v h = absurd (cc (translate-ok (err e) v h))

-- What is read of the other venues is what was read before.
abbrev pub Others : ℕ → Store → Store → Type 0
Others k st st' = (j : ℕ) → j ≢ k → get_venue none j st' ≡ get_venue none j st

-- The row of a write, as the next read finds it.
pub written :
    (column : Time → Time) (v existing : Venue) (k : ℕ) (st : Store)
    → first_venue k st.venues ≡ ok existing
    → let st' : Store = record st { venues = update_rows (set_columns column v) k st.venues } in
      (get_venue none k st' ≡ ok (set_columns column v existing)) × Others k st st'
unfolding set_columns get_venue find_venue
written column v existing k st found =
    let live = first_venue-id k st.venues existing found in
    let f = set_columns column v in
    let read = first_venue-update f (λ x. refl) k st.venues existing found live.1 in
    (rw read refl, λ j ne. rw (first_venue-update_ne f (λ x. refl) j k st.venues ne) refl)

-- The same, for a store that is only known to equal the written one.
landed :
    (column : Time → Time) (v existing : Venue) (k : ℕ) (st st' : Store)
    → first_venue k st.venues ≡ ok existing
    → v.id ≡ k
    → st' ≡ record st { venues = update_rows (set_columns column v) v.id st.venues }
    → (get_venue none k st' ≡ ok (set_columns column v existing)) × Others k st st'
landed column v existing k st st' found same after =
    let f = set_columns column v in
    let at_k = after ∙ ap (λ j. record st { venues = update_rows f j st.venues }) same in
    subst (λ s. (get_venue none k s ≡ ok (set_columns column v existing)) × Others k st s)
      (sym at_k) (written column v existing k st found)

-- An update that succeeds was given a valid venue with a price that is not negative; the next read of
-- this id returns the columns that were given and the id, and every other venue reads as before.
pub update-effect :
    (db : Db) (k : ℕ) (v : Venue) (st st' : Store)
    → update db k v st ≡ ok st'
    → (is_valid v.venue_type ≡ true)
      × All IsDay (days_of v.weekdays)
      × (is_negative v.hour_price ≡ false)
      × (get_venue none k st'
          ≡ ok (record v { id = k; deleted = false; weekdays = week_columns db.column v.weekdays }))
      × Others k st st'
unfolding update replace set_columns
update-effect db k v st st' h =
    let (existing, found, h₁) = >>=-eq-ok (translate (find_venue db.read_fault k st)) _ h in
    let row = find_venue-ok db.read_fault k st existing found in
    let (same, live) = first_venue-id k st.venues existing row in
    let (valid, price, after) =
      update_venue-ok db.column db.write_fault (replace v existing) st st' h₁ in
    let good = (validate_venue_iff (replace v existing)).0 valid in
    let (read, others) = landed db.column (replace v existing) existing k st st' row same after in
    let week = week_columns db.column v.weekdays in
    (
      good.0,
      good.1,
      price,
      read
          ∙ ap (λ j. ok (record v { id = j; deleted = existing.deleted; weekdays = week })) same
          ∙ ap (λ d. ok (record v { id = k; deleted = d; weekdays = week })) live,
      others,
    )

-- A new schedule that is accepted is valid; the next read of this id returns the venue as it was read
-- before with the new schedule's columns, and every other venue reads as before.
pub update_schedule-effect :
    (db : Db) (k : ℕ) (w : Weekdays) (st st' : Store)
    → update_schedule db k w st ≡ ok st'
    → All IsDay (days_of w)
      × ((v : Venue) × (get_schedule none k st ≡ ok v)
          × (get_schedule none k st' ≡ ok (set_columns db.column (record v { weekdays = w }) v)))
      × Others k st st'
unfolding update_schedule get_schedule find_venue get_venue
update_schedule-effect db k w st st' h =
    let (v, found, h₁) = >>=-eq-ok (translate (find_venue db.read_fault k st)) _ h in
    let row = find_venue-ok db.read_fault k st v found in
    let (same, live) = first_venue-id k st.venues v row in
    let v' : Venue = record v { weekdays = w } in
    let (valid, price, after) = update_venue-ok db.column db.write_fault v' st st' h₁ in
    let (read, others) = landed db.column v' v k st st' row same after in
    (((validate_venue_iff v').0 valid).1, (v, rw row refl, read), others)

-- After a delete that succeeds the venue is not found, and every other venue reads as before.
pub delete-effect :
    (db : Db) (k : ℕ) (st st' : Store)
    → delete db k st ≡ ok st'
    → (get_venue none k st' ≡ err err_venue_not_found) × Others k st st'
unfolding delete delete_venue get_venue find_venue
delete-effect db k st st' h =
    let (existing, found, h₁) = >>=-eq-ok (translate (find_venue db.read_fault k st)) _ h in
    let (u, free, h₂) = >>=-eq-ok (check db.write_fault) _ h₁ in
    let (row, again, h₃) = >>=-eq-ok (first_venue k st.venues) _ h₂ in
    let mark : Venue → Venue = λ v. record v { deleted = true } in
    subst (λ s. (get_venue none k s ≡ err err_venue_not_found) × Others k st s) (ok_unique refl h₃)
      (
        rw (first_venue-deleted k st.venues) refl,
        λ j ne. rw (first_venue-update_ne mark (λ x. refl) j k st.venues ne) refl,
      )

-- A write of a venue that is not there says so.
pub update-missing :
    (db : Db) (k : ℕ) (v : Venue) (w : Weekdays) (st : Store)
    → db.read_fault ≡ none
    → get_venue none k st ≡ err err_venue_not_found
    → (update db k v st ≡ err err_venue_not_found)
      × (update_schedule db k w st ≡ err err_venue_not_found)
      × (delete db k st ≡ err err_venue_not_found)
unfolding update update_schedule delete get_venue
update-missing db k v w st ready missing =
    (rw (ready, missing) refl, rw (ready, missing) refl, rw (ready, missing) refl)
