-- ===== src/Venue/Transport/Frame.antt =====
-- What a request can do to the table of venues.
use booking_venue.Base.{
  ◌≡◌, ◌≤◌, ◌<◌, refl, Option, Result, ok, err, arith, Result-cases, inl, inr, List,
}
use booking_venue.Clock.{Time}
use booking_venue.Clock.HourMinute.{Text}
use booking_venue.Venue.Model.{Venue, VenueError}
use booking_venue.Venue.Repo.{Store, create_venue}
use booking_venue.Venue.Service.{Db, create}
use booking_venue.Venue.Dto.{VenueDto, ScheduleDto}
use booking_venue.Venue.Transport.{
  Response, Request, create_input, handle_create, handle_update, handle_delete,
  handle_update_schedule, serve, Body, created_reply, reread, list_request, create_request,
  get_request, delete_request, schedule_request, owned_request, update_request,
  update_schedule_request, types_request,
}

-- An error response, or the table that the request has left.
abbrev KeepsOnError : Store → Response × Store → Type 0
KeepsOnError st out = 400 ≤ out.0.code → out.1.venues ≡ st.venues

reread-code : (body : Venue → Body) (r : Result VenueError Venue) → (reread body r).code < 400
reread-code body (ok v) = omega arith
reread-code body (err e) = omega arith

update-keeps :
    (db : Db) (now : Time) (id : Text) (b : Option VenueDto) (st : Store)
    → KeepsOnError st (handle_update db now id b st)
unfolding handle_update
update-keeps db now id b st = ground arith

schedule-keeps :
    (db : Db) (now : Time) (id : Text) (b : Option ScheduleDto) (st : Store)
    → KeepsOnError st (handle_update_schedule db now id b st)
unfolding handle_update_schedule
schedule-keeps db now id b st = ground arith

delete-keeps : (db : Db) (id : Text) (st : Store) → KeepsOnError st (handle_delete db id st)
unfolding handle_delete
delete-keeps db id st = ground arith

pub create_venue-keeps :
    (db : Db) (v : Venue) (st : Store) (e : VenueError)
    → (create db v st).0 ≡ err e
    → (create db v st).1.venues ≡ st.venues
unfolding create create_venue
create_venue-keeps db v st e h = ground arith

created_reply-keeps :
    (out : Result VenueError Venue × Store) (vs : List Venue)
    → ((e : VenueError) → out.0 ≡ err e → out.1.venues ≡ vs)
    → 400 ≤ (created_reply out).0.code
    → (created_reply out).1.venues ≡ vs
created_reply-keeps (ok v, st) vs k h = absurd (omega (arith, h))
created_reply-keeps (err e, st) vs k h = k e refl

create-keeps :
    (db : Db) (now : Time) (b : Option VenueDto) (st : Store)
    → KeepsOnError st (handle_create db now b st)
unfolding handle_create
create-keeps db now b st = elim (Result-cases (create_input now b)) [
  | inl (e, bad) ↦ rw (bad, handle_create) (λ h. refl)
  | inr (v, good) ↦
      rw (good, handle_create)
        (created_reply-keeps (create db v st) st.venues (create_venue-keeps db v st))
]

-- A response with an error status (400 or more) leaves the table of venues as it was, for each of the
-- nine routes.
pub serve-keeps_on_error :
    (db : Db) (now : Time) (req : Request) (st : Store)
    → 400 ≤ (serve db now req st).0.code
    → (serve db now req st).1.venues ≡ st.venues
unfolding serve
serve-keeps_on_error db now (list_request q) st h = refl
serve-keeps_on_error db now (create_request b) st h = create-keeps db now b st h
serve-keeps_on_error db now (get_request id) st h = refl
serve-keeps_on_error db now (delete_request id) st h = delete-keeps db id st h
serve-keeps_on_error db now (schedule_request id) st h = refl
serve-keeps_on_error db now (owned_request id) st h = refl
serve-keeps_on_error db now (update_request id b) st h = update-keeps db now id b st h
serve-keeps_on_error db now (update_schedule_request id b) st h = schedule-keeps db now id b st h
serve-keeps_on_error db now types_request st h = refl
