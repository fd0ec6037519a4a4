-- ===== src/Venue/Directory.antt =====
-- The venue service as a directory of venues by their ids: what its nine routes answer and what they do
-- to what can be read, whatever the table, the marks of deleted rows and the sequence behind it are.
pub mod Lists
pub mod Reads
pub mod Effects
pub mod Writes
pub mod Weeks
pub mod Runs
pub mod Refines
use booking_venue.Base.{
  ℕ, suc, pos, ◌≤◌, ◌≡◌, ◌≢◌, ◌⊎◌, Bool, true, false, Option, none, some, List, [], ◌∷◌, All,
  length, Result, ok, err, ◌>>=◌,
}
use booking_venue.Clock.{Time}
use booking_venue.Clock.HourMinute.{Text}
use booking_venue.Venue.Model.{
  football, basketball, tennis, gym, swimming, Weekdays, Venue, VenueError, err_venue_not_found,
  validate_venue,
}
use booking_venue.Venue.Dto.{
  VenueDto, ScheduleDto, to_venue_dto, to_venue_dto_list, to_schedule_dto,
}
use booking_venue.Venue.Repo.{Store, has_id, is_negative, new_venue, week_columns}
use booking_venue.Venue.Repo.Query.{VenueFilter, is_selected, page_of}
use booking_venue.Venue.Repo.Rows.{HasKeys}
use booking_venue.Venue.Repo.Listing.{IsDescending}
use booking_venue.Venue.Service.{Db, get_venue, replace}
use booking_venue.Venue.Service.Creating.{stored}
use booking_venue.Venue.Transport.{
  service_failure, Failure, failed_with, Body, venue_body, venues_body, schedule_body, types_body,
  deactivated, no_body, Response, json, refused, parse_id, GetVenuesQuery, list_filter,
  create_input, update_input, schedule_input, Request, list_request, create_request, get_request,
  delete_request, schedule_request, owned_request, update_request, update_schedule_request,
  types_request, serve,
}

-- The venues that can be read, and the ids that are taken, by deleted venues too.
pub record Directory : Type 0 where
  pub at : ℕ → Option Venue
  pub taken : ℕ → Bool

abbrev pub found : Result VenueError Venue → Option Venue
found (ok v) = some v
found (err e) = none

-- What a read finds where the database answers.
abbrev pub view : Store → Directory
view st = record { at = λ k. found (get_venue none k st); taken = λ k. has_id k st.venues }

abbrev pub Same : Directory → Directory → Type 0
Same d d' = (j : ℕ) → (d'.at j ≡ d.at j) × (d'.taken j ≡ d.taken j)

-- What is known of one id alone has changed.
abbrev pub ChangesOnly : ℕ → Directory → Directory → Type 0
ChangesOnly k d d' = (j : ℕ) → j ≢ k → (d'.at j ≡ d.at j) × (d'.taken j ≡ d.taken j)

abbrev pub error_of : {A : Type 0} → Result Failure A → Option Failure
error_of (ok a) = none
error_of (err e) = some e

-- What is wrong with a request before the service is called.
abbrev pub input_error : Time → Request → Option Failure
input_error now (list_request q) = error_of (list_filter q)
input_error now (create_request b) = error_of (create_input now b)
input_error now (get_request id) = error_of (parse_id id)
input_error now (delete_request id) = error_of (parse_id id)
input_error now (schedule_request id) = error_of (parse_id id)
input_error now (owned_request id) = error_of (parse_id id)
input_error now (update_request id b) = error_of (parse_id id >>= λ _. update_input now b)
input_error now (update_schedule_request id b) =
    error_of (parse_id id >>= λ _. schedule_input now b)
input_error now types_request = none

-- The requests about one venue, with the text of its id.
pub data IsAbout : Request → Text → Type 0 where
  getting : {id : Text} → IsAbout (get_request id) id
  deleting : {id : Text} → IsAbout (delete_request id) id
  getting_schedule : {id : Text} → IsAbout (schedule_request id) id
  updating : {id : Text} {b : Option VenueDto} → IsAbout (update_request id b) id
  updating_week : {id : Text} {b : Option ScheduleDto} → IsAbout (update_schedule_request id b) id

-- The venue that a request asks to write.
pub data IsWriteOf (now : Time) (d : Directory) : Request → Venue → Type 0 where
  creating :
      {b : Option VenueDto} {v : Venue}
      → create_input now b ≡ ok v
      → IsWriteOf now d (create_request b) v
  putting :
      {id : Text} {b : Option VenueDto} {v : Venue} (k : ℕ) (old : Venue)
      → parse_id id ≡ ok k
      → update_input now b ≡ ok v
      → d.at k ≡ some old
      → IsWriteOf now d (update_request id b) (replace v old)
  putting_week :
      {id : Text} {b : Option ScheduleDto} {w : Weekdays} (k : ℕ) (old : Venue)
      → parse_id id ≡ ok k
      → schedule_input now b ≡ ok w
      → d.at k ≡ some old
      → IsWriteOf now d (update_schedule_request id b) (record old { weekdays = w })

-- The hook or the constraint on the price refuses it.
abbrev pub IsInvalid : Venue → Type 0
IsInvalid v = (validate_venue v ≢ ok tt) ⊎ (is_negative v.hour_price ≡ true)

abbrev pub IsDown : Db → Type 0
IsDown db = (db.read_fault ≢ none) ⊎ (db.write_fault ≢ none)

-- An error of the service as a response: 404 where it is that the venue is not there, or 500.
abbrev pub IsFailure : Response → Type 0
IsFailure res = (e : VenueError) × ((res ≡ service_failure e) ⊎ (res ≡ refused 500 (failed_with e)))

-- The response to a write, where the read after it has the fault or none.
abbrev pub after_write : Option VenueError → Body → Response
after_write none body = json 200 body
after_write (some e) body = json 204 no_body

-- The readable venues of a kind, all of them, once each and newest first.
abbrev pub IsListing : Directory → (Venue → Type 0) → List Venue → Type 0
IsListing d P vs =
    All (λ v. (d.at v.id ≡ some v) × P v) vs
    × ((j : ℕ) (v : Venue) → d.at j ≡ some v → P v → has_id j vs ≡ true)
    × HasKeys vs
    × IsDescending vs

-- One request of a directory: the directory before and after it, and the response.
pub data Step (db : Db) (now : Time) (d d' : Directory) : Request → Response → Type 0 where
  malformed :
      {req : Request} (e : Failure)
      → input_error now req ≡ some e
      → Same d d'
      → Step db now d d' req (refused 400 e)
  missing :
      {req : Request} {id : Text} (k : ℕ)
      → IsAbout req id
      → parse_id id ≡ ok k
      → input_error now req ≡ none
      → d.at k ≡ none
      → Same d d'
      → Step db now d d' req (refused 404 (failed_with err_venue_not_found))
  invalid :
      {req : Request} {res : Response} (v : Venue)
      → IsWriteOf now d req v
      → IsInvalid v
      → IsFailure res
      → Same d d'
      → Step db now d d' req res
  clashing :
      {b : Option VenueDto} {res : Response} (n : ℕ) (v : Venue)
      → create_input now b ≡ ok v
      → d.taken (new_venue n v).id ≡ true
      → IsFailure res
      → Same d d'
      → Step db now d d' (create_request b) res
  down :
      {req : Request} {res : Response}
      → IsDown db
      → IsFailure res
      → Same d d'
      → Step db now d d' req res
  got :
      {id : Text} (k : ℕ) (v : Venue)
      → parse_id id ≡ ok k
      → d.at k ≡ some v
      → Same d d'
      → Step db now d d' (get_request id) (json 200 (venue_body (to_venue_dto v)))
  got_schedule :
      {id : Text} (k : ℕ) (v : Venue)
      → parse_id id ≡ ok k
      → d.at k ≡ some v
      → Same d d'
      → Step db now d d' (schedule_request id) (json 200 (schedule_body (to_schedule_dto v)))
  listed :
      {q : Option GetVenuesQuery} (f : VenueFilter) (vs : List Venue)
      → list_filter q ≡ ok f
      → IsListing d (λ v. is_selected f v ≡ true) vs
      → Same d d'
      → Step db now d d'
          (list_request q)
          (json 200 (venues_body (to_venue_dto_list (page_of f.limit f.page vs))))
  owned :
      {id : Text} (k : ℕ) (vs : List Venue)
      → parse_id id ≡ ok k
      → IsListing d (λ v. v.owner_id ≡ k) vs
      → Same d d'
      → Step db now d d' (owned_request id) (json 200 (venues_body (to_venue_dto_list vs)))
  types_shown :
      Same d d'
      → Step db now d d' types_request
          (json 200 (types_body (football ∷ basketball ∷ tennis ∷ gym ∷ swimming ∷ [])))
  created :
      {b : Option VenueDto} (n : ℕ) (v : Venue)
      → create_input now b ≡ ok v
      → validate_venue v ≡ ok tt
      → d.taken (new_venue n v).id ≡ false
      → d'.at (new_venue n v).id ≡ some (stored db.column (new_venue n v))
      → ChangesOnly (new_venue n v).id d d'
      → Step db now d d' (create_request b) (json 201 (venue_body (to_venue_dto (new_venue n v))))
  replaced :
      {id : Text} {b : Option VenueDto} (k : ℕ) (v old row : Venue)
      → parse_id id ≡ ok k
      → update_input now b ≡ ok v
      → d.at k ≡ some old
      → row ≡ record v { id = k; deleted = false; weekdays = week_columns db.column v.weekdays }
      → d'.at k ≡ some row
      → ChangesOnly k d d'
      → Step db now d d'
          (update_request id b)
          (after_write db.reread_fault (venue_body (to_venue_dto row)))
  rescheduled :
      {id : Text} {b : Option ScheduleDto} (k : ℕ) (w : Weekdays) (old row : Venue)
      → parse_id id ≡ ok k
      → schedule_input now b ≡ ok w
      → d.at k ≡ some old
      → row ≡ record old { weekdays = week_columns db.column w }
      → d'.at k ≡ some row
      → ChangesOnly k d d'
      → Step db now d d'
          (update_schedule_request id b)
          (after_write db.reread_fault (schedule_body (to_schedule_dto row)))
  removed :
      {id : Text} (k : ℕ) (old : Venue)
      → parse_id id ≡ ok k
      → d.at k ≡ some old
      → d'.at k ≡ none
      → ChangesOnly k d d'
      → Step db now d d' (delete_request id) (json 200 deactivated)
