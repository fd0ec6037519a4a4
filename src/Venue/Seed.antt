-- ===== src/Venue/Seed.antt =====
-- internal/seed/seed.go of the venue service: the venues that fill an empty table. A clock gives what
-- `time.Now()` answers for each venue and day.
pub mod Fills
pub mod Valid
use booking_venue.Base.{
  ℕ, suc, zero, ◌+◌, ℤ, pos, Bool, true, false, not, Option, none, some, List, [], ◌∷◌, filter, ltb,
  length, if◌then◌else◌, Result, ok, err, ◌>>=◌, ◌>>◌, check,
}
use booking_venue.Clock.{Time, utc, date_of}
use booking_venue.Clock.HourMinute.{Text}
use booking_venue.Venue.Model.{
  VenueType, football, basketball, tennis, gym, swimming, DaySchedule, Weekdays, Venue, VenueError,
  validate_venue,
}
use booking_venue.Venue.Repo.{Store, create_venue}

-- createDaySchedule
unfoldable pub create_day_schedule : Time → Bool → ℕ → ℕ → ℕ → ℕ → DaySchedule
create_day_schedule now enabled start_hour start_min end_hour end_min =
    if enabled
    then record {
      enabled = true;
      start_time = some (date_of now start_hour start_min utc);
      end_time = some (date_of now end_hour end_min utc);
    }
    else record { enabled = false; start_time = none; end_time = none }

-- `enabledDays[n]`, where it is given; true otherwise.
abbrev pub enabled_day : ℕ → List Bool → Bool
enabled_day n [] = true
enabled_day zero (b ∷ bs) = b
enabled_day (suc n) (b ∷ bs) = enabled_day n bs

-- createWeekdays
unfoldable pub create_weekdays : (ℕ → Time) → ℕ → ℕ → ℕ → ℕ → List Bool → Weekdays
unfolding create_day_schedule
create_weekdays now sh sm eh em days = record {
  monday = create_day_schedule (now 0) (enabled_day 0 days) sh sm eh em;
  tuesday = create_day_schedule (now 1) (enabled_day 1 days) sh sm eh em;
  wednesday = create_day_schedule (now 2) (enabled_day 2 days) sh sm eh em;
  thursday = create_day_schedule (now 3) (enabled_day 3 days) sh sm eh em;
  friday = create_day_schedule (now 4) (enabled_day 4 days) sh sm eh em;
  saturday = create_day_schedule (now 5) (enabled_day 5 days) sh sm eh em;
  sunday = create_day_schedule (now 6) (enabled_day 6 days) sh sm eh em;
}

-- The districts, in UTF-8.
abbrev pub central : Text
central =
    208 ∷ 166 ∷ 208 ∷ 181 ∷ 208 ∷ 189 ∷ 209 ∷ 130 ∷ 209 ∷ 128 ∷ 208 ∷ 176 ∷ 208 ∷ 187 ∷ 209 ∷ 140
    ∷ 208 ∷ 189 ∷ 209 ∷ 139 ∷ 208 ∷ 185 ∷ []

abbrev pub north : Text
north =
    208 ∷ 161 ∷ 208 ∷ 181 ∷ 208 ∷ 178 ∷ 208 ∷ 181 ∷ 209 ∷ 128 ∷ 208 ∷ 189 ∷ 209 ∷ 139 ∷ 208 ∷ 185
    ∷ []

abbrev pub south : Text
south = 208 ∷ 174 ∷ 208 ∷ 182 ∷ 208 ∷ 189 ∷ 209 ∷ 139 ∷ 208 ∷ 185 ∷ []

abbrev pub west : Text
west =
    208 ∷ 151 ∷ 208 ∷ 176 ∷ 208 ∷ 191 ∷ 208 ∷ 176 ∷ 208 ∷ 180 ∷ 208 ∷ 189 ∷ 209 ∷ 139 ∷ 208 ∷ 185
    ∷ []

abbrev pub east : Text
east =
    208 ∷ 146 ∷ 208 ∷ 190 ∷ 209 ∷ 129 ∷ 209 ∷ 130 ∷ 208 ∷ 190 ∷ 209 ∷ 135 ∷ 208 ∷ 189 ∷ 209 ∷ 139
    ∷ 208 ∷ 185 ∷ []

-- A venue of the list, before the insert.
unfoldable pub seed_venue : VenueType → ℕ → Bool → ℕ → Text → Weekdays → Venue
seed_venue venue_type owner_id is_active price district weekdays = record {
  id = 0;
  deleted = false;
  venue_type = venue_type;
  owner_id = owner_id;
  is_active = is_active;
  hour_price = pos price;
  district = district;
  weekdays = weekdays;
}

abbrev pub but_sunday : List Bool
but_sunday = true ∷ true ∷ true ∷ true ∷ true ∷ true ∷ false ∷ []

abbrev pub but_weekend : List Bool
but_weekend = true ∷ true ∷ true ∷ true ∷ true ∷ false ∷ false ∷ []

-- `venues`
unfoldable pub seeds : (ℕ → ℕ → Time) → List Venue
unfolding seed_venue create_weekdays
seeds now =
    seed_venue football 1 true 1500 central (create_weekdays (now 0) 8 0 22 0 [])
    ∷ seed_venue football 1 true 2000 north (create_weekdays (now 1) 9 0 21 0 but_sunday)
    ∷ seed_venue football 2 true 1200 south (create_weekdays (now 2) 7 0 23 0 [])
    ∷ seed_venue basketball 2 true 1800 central (create_weekdays (now 3) 10 0 22 0 [])
    ∷ seed_venue basketball 3 true 2200 west (create_weekdays (now 4) 8 30 20 30 but_weekend)
    ∷ seed_venue tennis 3 true 2500 east (create_weekdays (now 5) 9 0 21 0 [])
    ∷ seed_venue tennis 1 true 3000 central (create_weekdays (now 6) 8 0 22 0 [])
    ∷ seed_venue gym 4 true 500 north (create_weekdays (now 7) 6 0 23 59 [])
    ∷ seed_venue gym 4 true 800 central (create_weekdays (now 8) 7 0 23 0 but_sunday)
    ∷ seed_venue swimming 5 true 1000 south (create_weekdays (now 9) 8 0 20 0 [])
    ∷ seed_venue swimming 5 false 1500 east (create_weekdays (now 10) 9 0 19 0 but_weekend)
    ∷ []

-- The hook runs for every venue of a batch before the insert.
unfoldable pub validate_batch : List Venue → Result VenueError (Unit {0})
validate_batch [] = ok tt
validate_batch (v ∷ vs) = validate_venue v >> validate_batch vs

-- The rows of one INSERT; the sequence moves on for a row that is refused.
unfoldable pub insert_rows :
    (Time → Time) → List Venue → Store → Result VenueError (Unit {0}) × Store
insert_rows column [] st = (ok tt, st)
insert_rows column (v ∷ vs) st =
    let (created, st') = create_venue column none v st in
    elim created [ err e ↦ (err e, st') | ok _ ↦ insert_rows column vs st' ]

-- `db.Create(&batch)`: all of its rows or none.
unfoldable pub create_batch :
    (Time → Time) → Option VenueError → List Venue → Store → Result VenueError (Unit {0}) × Store
unfolding validate_batch insert_rows
create_batch column fault vs st = elim (validate_batch vs >> check fault) [
  | err e ↦ (err e, st)
  | ok _ ↦
      let (inserted, st') = insert_rows column vs st in
      elim inserted [ err e ↦ (err e, record st { next_id = st'.next_id }) | ok u ↦ (ok u, st') ]
]

-- `venues[i:end]` for the batch size of 5.
unfoldable pub batches_of : List Venue → List (List Venue)
batches_of [] = []
batches_of (a ∷ b ∷ c ∷ d ∷ e ∷ vs) = (a ∷ b ∷ c ∷ d ∷ e ∷ []) ∷ batches_of vs
batches_of vs = vs ∷ []

-- The loop over the batches; each has its own fault.
unfoldable pub create_batches :
    (Time → Time)
    → (ℕ → Option VenueError)
    → ℕ
    → List (List Venue)
    → Store
    → Result VenueError (Unit {0}) × Store
unfolding create_batch
create_batches column faults i [] st = (ok tt, st)
create_batches column faults i (batch ∷ rest) st =
    let (created, st') = create_batch column (faults i) batch st in
    elim created [ err e ↦ (err e, st') | ok _ ↦ create_batches column faults (suc i) rest st' ]

-- The clock, and the faults of the count and of the batches.
pub record SeedEnv : Type 0 where
  pub column : Time → Time
  pub now : ℕ → ℕ → Time
  pub count_fault : Option VenueError
  pub faults : ℕ → Option VenueError

-- `Count(&count)`: the rows that are not deleted.
abbrev pub live_count : Store → ℕ
live_count st = length (filter (λ v. not v.deleted) st.venues)

-- SeedVenues
unfoldable pub seed_venues : SeedEnv → Store → Result VenueError (Unit {0}) × Store
unfolding seeds batches_of create_batches
seed_venues env st = elim env.count_fault [
  | some e ↦ (err e, st)
  | none ↦
      if ltb 0 (live_count st)
      then (ok tt, st)
      else create_batches env.column env.faults 0 (batches_of (seeds env.now)) st
]

-- SeedVenuesForce: it deletes every row first, the marked ones included.
unfoldable pub seed_venues_force :
    SeedEnv → Option VenueError → Store → Result VenueError (Unit {0}) × Store
unfolding seed_venues
seed_venues_force env (some e) st = (err e, st)
seed_venues_force env none st = seed_venues env (record st { venues = [] })
