-- ===== src/Venue/Transport.antt =====
-- internal/transport/venue_transport.go: the handlers. What gin makes of a body or a query is given:
-- `none` is its error. A handler returns its response and the database after it.
pub mod Frame
pub mod Schedules
pub mod Keys
use booking_venue.Base.{
  ℕ, ◌+◌, ◌*◌, ◌^◌, ℤ, pos, Bool, true, false, not, ◌&&◌, ◌==◌, ltb, if◌then◌else◌, Option, none,
  some, List, [], ◌∷◌, Result, ok, err, ◌>>=◌, ◌>>◌, fail_if,
}
use booking_venue.Clock.{Time}
use booking_venue.Clock.HourMinute.{Text}
use booking_venue.Strings.{parse_uint, is_empty_text}
use booking_venue.Venue.Model.{
  VenueType, football, basketball, tennis, gym, swimming, other_type, is_valid, Weekdays, Venue,
  VenueError, err_venue_not_found, invalid_type,
}
use booking_venue.Venue.Dto.{
  VenueDto, ScheduleDto, to_venue_dto, to_venue_dto_list, from_venue_dto, to_schedule_dto,
  from_schedule_update_dto,
}
use booking_venue.Venue.Repo.{Store, is_negative}
use booking_venue.Venue.Repo.Query.{VenueFilter}
use booking_venue.Venue.Service.{
  Db, get_venue, get_schedule, create, get_list, get_by_owner_id, update, delete, update_schedule,
}

pub data Failure : Type 0 where
  bad_id zero_id bad_query bad_body : Failure
  type_required owner_required negative_price district_required : Failure
  failed_with : VenueError → Failure

pub data Body : Type 0 where
  error_body : Failure → Body
  venue_body : VenueDto → Body
  venues_body : List VenueDto → Body
  schedule_body : ScheduleDto → Body
  types_body : List VenueType → Body
  deactivated no_body : Body

pub record Response : Type 0 where
  pub code : ℕ
  pub body : Body

abbrev pub json : ℕ → Body → Response
json code body = record { code = code; body = body }

abbrev pub refused : ℕ → Failure → Response
refused code e = json code (error_body e)

-- The status of a service's error: 404 for a venue that is not there, 500 otherwise.
abbrev pub service_failure : VenueError → Response
service_failure err_venue_not_found = refused 404 (failed_with err_venue_not_found)
service_failure e = refused 500 (failed_with e)

abbrev pub positive : Option ℕ → Result Failure ℕ
positive none = err bad_id
positive (some n) = if n == 0 then err zero_id else ok n

-- parseID
unfoldable pub parse_id : Text → Result Failure ℕ
parse_id s = positive (parse_uint 64 s)

abbrev pub bound : {A : Type 0} → Option A → Failure → Result Failure A
bound none e = err e
bound (some a) e = ok a

abbrev pub as_failure : {A : Type 0} → Result VenueError A → Result Failure A
as_failure (ok a) = ok a
as_failure (err e) = err (failed_with e)

pub record GetVenuesQuery : Type 0 where
  pub district : Text
  pub venue_type : VenueType
  pub hour_price : ℤ
  pub is_active : Option Bool
  pub owner_id : ℕ
  pub page : ℕ
  pub limit : ℕ

abbrev pub is_empty_type : VenueType → Bool
is_empty_type (other_type []) = true
is_empty_type _ = false

-- The first half of GetList: the defaults of the page, and the check of the type.
unfoldable pub list_filter : Option GetVenuesQuery → Result Failure VenueFilter
unfolding is_valid
list_filter bound_query = do
  query ← bound bound_query bad_query
  let limit = if query.limit == 0 then 10 else query.limit
  let page = if query.page == 0 then 1 else query.page
  fail_if (not (is_empty_type query.venue_type) && not (is_valid query.venue_type))
      (failed_with (invalid_type query.venue_type))
  ok (record {
    district = query.district;
    venue_type = query.venue_type;
    hour_price = query.hour_price;
    is_active = query.is_active;
    owner_id = query.owner_id;
    page = pos page;
    limit = pos limit;
  })

abbrev pub venues_reply : Result VenueError (List Venue) → Response
venues_reply (ok venues) = json 200 (venues_body (to_venue_dto_list venues))
venues_reply (err e) = refused 500 (failed_with e)

-- GetList
unfoldable pub handle_list : Db → Option GetVenuesQuery → Store → Response
handle_list db query st = elim (list_filter query) [
  | err e ↦ refused 400 e
  | ok filter ↦ venues_reply (get_list db.read_fault filter st)
]

abbrev pub venue_reply : Result VenueError Venue → Response
venue_reply (ok v) = json 200 (venue_body (to_venue_dto v))
venue_reply (err e) = service_failure e

-- GetByID
unfoldable pub handle_get : Db → Text → Store → Response
handle_get db id st = elim (parse_id id) [
  | err e ↦ refused 400 e
  | ok k ↦ venue_reply (get_venue db.read_fault k st)
]

-- What Create checks and converts before it calls the service.
unfoldable pub create_input : Time → Option VenueDto → Result Failure Venue
unfolding is_valid
create_input now body = do
  dto ← bound body bad_body
  fail_if (not (is_valid dto.venue_type)) (failed_with (invalid_type dto.venue_type))
  as_failure (from_venue_dto now dto)

abbrev pub created_reply : Result VenueError Venue × Store → Response × Store
created_reply (ok v, st) = (json 201 (venue_body (to_venue_dto v)), st)
created_reply (err e, st) = (refused 500 (failed_with e), st)

-- Create
unfoldable pub handle_create : Db → Time → Option VenueDto → Store → Response × Store
handle_create db now body st = elim (create_input now body) [
  | err e ↦ (refused 400 e, st)
  | ok v ↦ created_reply (create db v st)
]

-- What Update checks and converts, after the id.
unfoldable pub update_input : Time → Option VenueDto → Result Failure Venue
unfolding is_valid
update_input now body = do
  dto ← bound body bad_body
  fail_if (is_empty_type dto.venue_type) type_required
  fail_if (not (is_valid dto.venue_type)) (failed_with (invalid_type dto.venue_type))
  fail_if (dto.owner_id == 0) owner_required
  fail_if (is_negative dto.hour_price) negative_price
  fail_if (is_empty_text dto.district) district_required
  as_failure (from_venue_dto now dto)

-- The response to a write, from what the row reads as after it: 204 where the read fails.
abbrev pub reread : (Venue → Body) → Result VenueError Venue → Response
reread body (ok v) = json 200 (body v)
reread body (err e) = json 204 no_body

-- Update
unfoldable pub handle_update : Db → Time → Text → Option VenueDto → Store → Response × Store
handle_update db now id body st = elim (parse_id id) [
  | err e ↦ (refused 400 e, st)
  | ok k ↦ elim (update_input now body) [
    | err e ↦ (refused 400 e, st)
    | ok v ↦ elim (update db k v st) [
      | err e ↦ (service_failure e, st)
      | ok st' ↦ (reread (λ x. venue_body (to_venue_dto x)) (get_venue db.reread_fault k st'), st')
    ]
  ]
]

-- Delete
unfoldable pub handle_delete : Db → Text → Store → Response × Store
handle_delete db id st = elim (parse_id id) [
  | err e ↦ (refused 400 e, st)
  | ok k ↦ elim (delete db k st) [
    | err e ↦ (service_failure e, st)
    | ok st' ↦ (json 200 deactivated, st')
  ]
]

abbrev pub schedule_reply : Result VenueError Venue → Response
schedule_reply (ok v) = json 200 (schedule_body (to_schedule_dto v))
schedule_reply (err e) = service_failure e

-- GetSchedule
unfoldable pub handle_get_schedule : Db → Text → Store → Response
handle_get_schedule db id st = elim (parse_id id) [
  | err e ↦ refused 400 e
  | ok k ↦ schedule_reply (get_schedule db.read_fault k st)
]

-- What UpdateSchedule converts, after the id.
unfoldable pub schedule_input : Time → Option ScheduleDto → Result Failure Weekdays
schedule_input now body = do
  dto ← bound body bad_body
  as_failure (from_schedule_update_dto now dto)

-- UpdateSchedule
unfoldable pub handle_update_schedule :
    Db → Time → Text → Option ScheduleDto → Store → Response × Store
handle_update_schedule db now id body st = elim (parse_id id) [
  | err e ↦ (refused 400 e, st)
  | ok k ↦ elim (schedule_input now body) [
    | err e ↦ (refused 400 e, st)
    | ok w ↦ elim (update_schedule db k w st) [
      | err e ↦ (service_failure e, st)
      | ok st' ↦ (
        reread (λ x. schedule_body (to_schedule_dto x)) (get_schedule db.reread_fault k st'),
        st',
      )
    ]
  ]
]

-- GetVenueTypes
unfoldable pub handle_venue_types : Response
handle_venue_types = json 200 (types_body (football ∷ basketball ∷ tennis ∷ gym ∷ swimming ∷ []))

-- GetByOwnerID
unfoldable pub handle_owned : Db → Text → Store → Response
handle_owned db id st = elim (parse_id id) [
  | err e ↦ refused 400 e
  | ok owner ↦ venues_reply (get_by_owner_id db.read_fault owner st)
]

-- The routes of RegisterRoutes, with what each handler reads of its request.
pub data Request : Type 0 where
  list_request : Option GetVenuesQuery → Request
  create_request : Option VenueDto → Request
  get_request delete_request schedule_request owned_request : Text → Request
  update_request : Text → Option VenueDto → Request
  update_schedule_request : Text → Option ScheduleDto → Request
  types_request : Request

unfoldable pub serve : Db → Time → Request → Store → Response × Store
serve db now (list_request q) st = (handle_list db q st, st)
serve db now (create_request b) st = handle_create db now b st
serve db now (get_request id) st = (handle_get db id st, st)
serve db now (delete_request id) st = handle_delete db id st
serve db now (schedule_request id) st = (handle_get_schedule db id st, st)
serve db now (owned_request id) st = (handle_owned db id st, st)
serve db now (update_request id b) st = handle_update db now id b st
serve db now (update_schedule_request id b) st = handle_update_schedule db now id b st
serve db now types_request st = (handle_venue_types, st)
