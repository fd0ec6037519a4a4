-- ===== src/Venue/Repo.antt =====
-- internal/repository/venue_repository.go and the table `venues`. A time is stored in a column of type
-- `time`: the parameter `column` is what such a column makes of it. Each call may also fail with the
-- error that it is given.
pub mod Rows
pub mod Query
pub mod Listing
use booking_venue.Base.{
  ℕ, suc, zero, ◌+◌, ◌-◌, ◌*◌, ◌%◌, ◌^◌, ℤ, pos, negsuc, Bool, true, false, not, ◌&&◌, ◌||◌, Option,
  none, some, List, [], ◌∷◌, ◌++◌, ◌==◌, ltb, leb, if◌then◌else◌, filter, length, take, drop,
  max_int64, Result, ok, err, ◌>>=◌, ◌>>◌, check, fail_if,
}
use booking_venue.Clock.{Time}
use booking_venue.Clock.HourMinute.{Text}
use booking_venue.Venue.Model.{
  VenueType, football, basketball, tennis, gym, swimming, other_type, DaySchedule, Weekdays, Venue,
  VenueError, record_not_found, database_error, validate_venue,
}

-- The rows in the order of their insertion, and the value of the primary key's sequence.
pub record Store : Type 0 where
  pub venues : List Venue
  pub next_id : ℕ

abbrev pub through : (Time → Time) → Option Time → Option Time
through column none = none
through column (some t) = some (column t)

abbrev pub day_columns : (Time → Time) → DaySchedule → DaySchedule
day_columns column d = record {
  enabled = d.enabled;
  start_time = through column d.start_time;
  end_time = through column d.end_time;
}

unfoldable pub week_columns : (Time → Time) → Weekdays → Weekdays
week_columns column w = record {
  monday = day_columns column w.monday;
  tuesday = day_columns column w.tuesday;
  wednesday = day_columns column w.wednesday;
  thursday = day_columns column w.thursday;
  friday = day_columns column w.friday;
  saturday = day_columns column w.saturday;
  sunday = day_columns column w.sunday;
}

-- An insert leaves a field out that is Go's zero value and has the tag `default:true`, and reads the
-- default back: false becomes true.
abbrev pub default_true : Bool → Bool
default_true b = if b then b else true

abbrev pub day_default : DaySchedule → DaySchedule
day_default d = record d { enabled = default_true d.enabled }

unfoldable pub week_default : Weekdays → Weekdays
week_default w = record {
  monday = day_default w.monday;
  tuesday = day_default w.tuesday;
  wednesday = day_default w.wednesday;
  thursday = day_default w.thursday;
  friday = day_default w.friday;
  saturday = day_default w.saturday;
  sunday = day_default w.sunday;
}

-- `check:hour_price >= 0`
abbrev pub is_negative : ℤ → Bool
is_negative (pos n) = false
is_negative (negsuc n) = true

unfoldable pub has_id : ℕ → List Venue → Bool
has_id k [] = false
has_id k (v ∷ vs) = v.id == k || has_id k vs

-- The venue as the insert leaves it in the caller's variable.
unfoldable pub new_venue : ℕ → Venue → Venue
unfolding week_default
new_venue next_id v = record v {
  id = if v.id == 0 then next_id else v.id;
  deleted = false;
  is_active = default_true v.is_active;
  weekdays = week_default v.weekdays;
}

-- Create, after its hook: the row gets an id of the sequence unless it has one. The constraints of the
-- table are checked after the sequence has moved.
unfoldable pub create_venue :
    (Time → Time) → Option VenueError → Venue → Store → Result VenueError Venue × Store
unfolding has_id new_venue week_columns
create_venue column fault v st = elim (validate_venue v >> check fault) [
  | err e ↦ (err e, st)
  | ok _ ↦
      let v' = new_venue st.next_id v in
      let next_id = if v.id == 0 then st.next_id + 1 else st.next_id in
      if is_negative v.hour_price || has_id v'.id st.venues
      then (err database_error, record st { next_id = next_id })
      else (
        ok v',
        record {
          venues = st.venues ++ record v' { weekdays = week_columns column v'.weekdays } ∷ [];
          next_id = next_id;
        },
      )
]

-- `First(&venue, id)`
unfoldable pub first_venue : ℕ → List Venue → Result VenueError Venue
first_venue k [] = err record_not_found
first_venue k (v ∷ vs) = if v.id == k && not v.deleted then ok v else first_venue k vs

-- GetByID of the repository.
unfoldable pub find_venue : Option VenueError → ℕ → Store → Result VenueError Venue
find_venue fault k st = check fault >> first_venue k st.venues

-- `UPDATE venues SET ... WHERE deleted_at IS NULL AND id = ?`, with what it does to one row.
unfoldable pub update_rows : (Venue → Venue) → ℕ → List Venue → List Venue
update_rows f k [] = []
update_rows f k (v ∷ vs) =
    if v.id == k && not v.deleted then f v ∷ update_rows f k vs else v ∷ update_rows f k vs

-- The columns of the map `updateData`.
unfoldable pub set_columns : (Time → Time) → Venue → Venue → Venue
unfolding week_columns
set_columns column v row = record row {
  venue_type = v.venue_type;
  owner_id = v.owner_id;
  is_active = v.is_active;
  hour_price = v.hour_price;
  district = v.district;
  weekdays = week_columns column v.weekdays;
}

-- Update, after its hook. Its callers have read the row, so the constraint on the price is checked.
unfoldable pub update_venue :
    (Time → Time) → Option VenueError → Venue → Store → Result VenueError Store
unfolding update_rows set_columns
update_venue column fault v st = do
  validate_venue v
  check fault
  fail_if (is_negative v.hour_price) database_error
  ok (record st { venues = update_rows (set_columns column v) v.id st.venues })

-- Delete: a row is only marked, and no row to mark is an error.
unfoldable pub delete_venue : Option VenueError → ℕ → Store → Result VenueError Store
unfolding update_rows
delete_venue fault k st = do
  check fault
  first_venue k st.venues >>= λ _.
      ok (record st { venues = update_rows (λ v. record v { deleted = true }) k st.venues })
