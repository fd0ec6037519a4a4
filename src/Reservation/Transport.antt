-- ===== src/Reservation/Transport.antt =====
-- internal/transport/booking.go: the handlers. What gin makes of a body, and time.Parse of a date, is
-- given: `none` is its error. A handler returns its response and the store after it.
pub mod Frame
use booking_venue.Base.{ℕ, Option, none, some, List, Result, ok, err, ◌>>=◌}
use booking_venue.Clock.{Time}
use booking_venue.Clock.HourMinute.{Text}
use booking_venue.Float64.{Float64}
use booking_venue.Strings.{atoi, to_uint}
use booking_venue.Reservation.Model.{
  Claims, ReservationDetails, Reservation, ReservationCreate, ReservationUpdate, ResponsVenueServ,
  ResponsVenueServFull, AvailableSlot, ServiceError,
}
use booking_venue.Reservation.Repo.{Store}
use booking_venue.Reservation.Schedule.{Reply}
use booking_venue.Reservation.Create.{CreateEnv, create_reservation}
use booking_venue.Reservation.Cancel.{CancelEnv, reservation_cancel}
use booking_venue.Reservation.Update.{UpdateEnv, reservation_update}
use booking_venue.Reservation.Query.{list_user_reservations, show_reservation, list_venue_bookings}
use booking_venue.Reservation.Availability.{get_venue_availability}
use booking_venue.Reservation.Middleware.{Jwt, Refusal, auth_middleware}

pub data Failure : Type 0 where
  refused : Refusal → Failure
  unauthorized invalid_claims invalid_user_type : Failure
  bad_body invalid_id invalid_date : Failure
  failed_with : ServiceError → Failure

pub data Body (F : Type 0) : Type 0 where
  error_body : Failure → Body F
  booking_body : ReservationDetails F → Body F
  bookings_body : List (ReservationDetails F) → Body F
  reservations_body : List Reservation → Body F
  slots_body : List AvailableSlot → Body F

pub record Response (F : Type 0) : Type 0 where
  pub code : ℕ
  pub body : Body F

-- A value of a gin context, of the type that a handler asks for or of another.
pub data ContextValue (A : Type 0) : Type 0 where
  typed : A → ContextValue A
  other_value : ContextValue A

-- The keys `claims` and `userID`.
pub record Context : Type 0 where
  pub claims : Option (ContextValue Claims)
  pub user_id : Option (ContextValue ℕ)

abbrev pub no_context : Context
no_context = record { claims = none; user_id = none }

-- The value of a key, with the two errors for it.
unfoldable pub value_of :
    {A : Type 0} → Failure → Failure → Option (ContextValue A) → Result Failure A
value_of missing wrong none = err missing
value_of missing wrong (some other_value) = err wrong
value_of missing wrong (some (typed a)) = ok a

-- `strconv.Atoi(c.Param("id"))`, and `uint(id)`.
abbrev pub parsed_id : Text → Result Failure ℕ
parsed_id s = elim (atoi s) [ none ↦ err invalid_id | some z ↦ ok (to_uint z) ]

abbrev pub bound : {A : Type 0} → Option A → Failure → Result Failure A
bound none e = err e
bound (some a) e = ok a

module _ {F : Type 0} where
  abbrev pub failure : ℕ → Failure → Response F
  failure code e = record { code = code; body = error_body e }

  -- The response to a value or an error of the service, each with its status.
  abbrev pub reply : {A : Type 0} → ℕ → ℕ → (A → Body F) → Result ServiceError A → Response F
  reply good bad body (ok a) = record { code = good; body = body a }
  reply good bad body (err e) = failure bad (failed_with e)

  -- The same for a call that has written.
  abbrev pub written :
      ℕ → Result ServiceError (ReservationDetails F) × Store F → Response F × Store F
  written good (r, st) = (reply good 500 booking_body r, st)

  -- A request that ends before the service is called.
  abbrev pub stopped :
      {A : Type 0}
      → ℕ
      → Store F
      → Result Failure A
      → (A → Response F × Store F)
      → Response F × Store F
  stopped code st (err e) rest = (failure code e, st)
  stopped code st (ok a) rest = rest a

module _ (float : Float64) where
  open float use {F}

  -- CreateReservation. `seen` is the store that the service reads, `st` the one that it writes.
  unfoldable pub handle_create :
      CreateEnv F → Context → Option ReservationCreate → Store F → Store F → Response F × Store F
  unfolding value_of
  handle_create env context body seen st =
      stopped 401 st (value_of unauthorized invalid_claims context.claims) λ claims.
        stopped 400 st (bound body bad_body)
          λ req. written 201 (create_reservation float env req claims seen st)

  -- CancelReservation
  unfoldable pub handle_cancel :
      CancelEnv → Text → Option Text → Store F → Store F → Response F × Store F
  handle_cancel env id body seen st = stopped 400 st (bound body bad_body) λ reason.
      stopped 400 st (parsed_id id) λ k. written 200 (reservation_cancel env k reason seen st)

  -- UpdateReservation
  unfoldable pub handle_update :
      UpdateEnv F → Text → Option (ReservationUpdate F) → Store F → Store F → Response F × Store F
  handle_update env id body seen st = stopped 400 st (parsed_id id) λ k.
      stopped 400 st (bound body bad_body)
        λ upd. written 200 (reservation_update float env k upd seen st)

-- The date of the query: today where there is none.
abbrev pub date_or : Time → Option (Option Time) → Result Failure Time
date_or now none = ok now
date_or now (some none) = err invalid_date
date_or now (some (some date)) = ok date

module _ {F : Type 0} where
  -- The same two shapes for a request that only reads.
  abbrev pub unless : {A : Type 0} → ℕ → Result Failure A → (A → Response F) → Response F
  unless code (err e) rest = failure code e
  unless code (ok a) rest = rest a

  -- GetByID: any error is 404.
  unfoldable pub handle_get : Option ServiceError → Text → Store F → Response F
  handle_get fault id st =
      unless 400 (parsed_id id) λ k. reply 200 404 booking_body (show_reservation fault k st)

  -- GetUserReservations
  unfoldable pub handle_user_reservations : Option ServiceError → Context → Store F → Response F
  unfolding value_of
  handle_user_reservations fault context st =
      unless 401 (value_of unauthorized invalid_user_type context.user_id)
        λ user. reply 200 500 reservations_body (list_user_reservations fault user st)

  -- GetVenueBookings. `venue_reply` is what the venue service answers for a venue.
  unfoldable pub handle_venue_bookings :
      (ℕ → Reply (ResponsVenueServ F)) → Option ServiceError → Context → Text → Store F → Response F
  unfolding value_of
  handle_venue_bookings venue_reply fault context id st =
      unless 401 (value_of unauthorized invalid_claims context.claims) λ claims.
        unless 400 (parsed_id id) λ k.
          reply 200 500 bookings_body (list_venue_bookings (venue_reply k) fault k (some claims) st)

  -- GetVenueAvailability
  unfoldable pub handle_availability :
      (ℕ → Reply (ResponsVenueServFull F))
      → Option ServiceError
      → Time
      → Text
      → Option (Option Time)
      → Store F
      → Response F
  handle_availability schedule_reply fault now id date st = unless 400 (parsed_id id) λ k.
      unless 400 (date_or now date)
        λ day. reply 200 500 slots_body (get_venue_availability (schedule_reply k) fault k day st)

-- What the world answers to one request.
pub record Env (F : Type 0) : Type 0 where
  pub now : Time
  pub create : CreateEnv F
  pub cancel : CancelEnv
  pub update : UpdateEnv F
  pub read_fault : Option ServiceError
  pub venue_reply : ℕ → Reply (ResponsVenueServ F)
  pub schedule_reply : ℕ → Reply (ResponsVenueServFull F)

-- The routes of Register, with what each handler reads of its request.
pub data Request (F : Type 0) : Type 0 where
  create_request : Option ReservationCreate → Request F
  cancel_request : Text → Option Text → Request F
  update_request : Text → Option (ReservationUpdate F) → Request F
  get_request : Text → Request F
  user_request : Request F
  venue_request : Text → Request F
  availability_request : Text → Option (Option Time) → Request F

module _ (float : Float64) where
  open float use {F}

  -- The handler of a route, in a context.
  unfoldable pub handle : Env F → Context → Request F → Store F → Store F → Response F × Store F
  handle env context (create_request b) seen st = handle_create float env.create context b seen st
  handle env context (cancel_request id b) seen st = handle_cancel float env.cancel id b seen st
  handle env context (update_request id b) seen st = handle_update float env.update id b seen st
  handle env context (get_request id) seen st = (handle_get env.read_fault id st, st)
  handle env context user_request seen st = (handle_user_reservations env.read_fault context st, st)
  handle env context (venue_request id) seen st =
      (handle_venue_bookings env.venue_reply env.read_fault context id st, st)
  handle env context (availability_request id date) seen st =
      (handle_availability env.schedule_reply env.read_fault env.now id date st, st)

  -- AuthMiddleware before a handler; it stores the claims and their user.
  abbrev pub guarded :
      Result Refusal Claims → (Context → Response F × Store F) → Store F → Response F × Store F
  guarded (err e) rest st = (failure 401 (refused e), st)
  guarded (ok claims) rest st =
      rest (record { claims = some (typed claims); user_id = some (typed claims.user_id) })

  -- A request with the header Authorization: the routes of a booking and of the free times of a venue
  -- take no token.
  unfoldable pub serve :
      Jwt → Text → ℕ → Env F → Text → Request F → Store F → Store F → Response F × Store F
  unfolding handle auth_middleware
  serve jwt secret now env header (get_request id) seen st =
      handle env no_context (get_request id) seen st
  serve jwt secret now env header (availability_request id date) seen st =
      handle env no_context (availability_request id date) seen st
  serve jwt secret now env header req seen st =
      guarded (auth_middleware jwt secret now header) (λ context. handle env context req seen st) st
