-- ===== src/Venue/Service.antt =====
-- internal/services/venue_service.go: the repository's errors become those of the service, and an
-- update first reads the row.
pub mod Effects
pub mod Creating
use booking_venue.Base.{ℕ, Option, List, Result, ok, err, ◌>>=◌}
use booking_venue.Clock.{Time}
use booking_venue.Venue.Model.{Weekdays, Venue, VenueError, record_not_found, err_venue_not_found}
use booking_venue.Venue.Repo.{Store, find_venue, create_venue, update_venue, delete_venue}
use booking_venue.Venue.Repo.Query.{VenueFilter, list_venues, list_owned}

-- What the column type `time` makes of a value, and the faults of a handler's three statements.
pub record Db : Type 0 where
  pub column : Time → Time
  pub read_fault : Option VenueError
  pub write_fault : Option VenueError
  pub reread_fault : Option VenueError

-- `errors.Is(err, gorm.ErrRecordNotFound)`
abbrev pub translate : {A : Type 0} → Result VenueError A → Result VenueError A
translate (ok a) = ok a
translate (err record_not_found) = err err_venue_not_found
translate (err e) = err e

-- GetByID, and GetSchedule, which is the same.
unfoldable pub get_venue : Option VenueError → ℕ → Store → Result VenueError Venue
get_venue fault id st = translate (find_venue fault id st)

unfoldable pub get_schedule : Option VenueError → ℕ → Store → Result VenueError Venue
get_schedule fault id st = translate (find_venue fault id st)

unfoldable pub create : Db → Venue → Store → Result VenueError Venue × Store
create db v st = create_venue db.column db.write_fault v st

unfoldable pub get_list : Option VenueError → VenueFilter → Store → Result VenueError (List Venue)
get_list fault filter st = list_venues fault filter st

unfoldable pub get_by_owner_id : Option VenueError → ℕ → Store → Result VenueError (List Venue)
get_by_owner_id fault owner st = list_owned fault owner st

-- Update: every column but the row's own id.
unfoldable pub replace : Venue → Venue → Venue
replace v existing = record existing {
  venue_type = v.venue_type;
  owner_id = v.owner_id;
  is_active = v.is_active;
  hour_price = v.hour_price;
  district = v.district;
  weekdays = v.weekdays;
}

unfoldable pub update : Db → ℕ → Venue → Store → Result VenueError Store
unfolding replace
update db id v st = do
  existing ← translate (find_venue db.read_fault id st)
  update_venue db.column db.write_fault (replace v existing) st

-- Delete: the second error is not translated.
unfoldable pub delete : Db → ℕ → Store → Result VenueError Store
delete db id st = do
  _ ← translate (find_venue db.read_fault id st)
  delete_venue db.write_fault id st

unfoldable pub update_schedule : Db → ℕ → Weekdays → Store → Result VenueError Store
update_schedule db id weekdays st = do
  venue ← translate (find_venue db.read_fault id st)
  update_venue db.column db.write_fault (record venue { weekdays = weekdays }) st
