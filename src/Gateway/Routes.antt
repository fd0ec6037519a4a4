-- ===== src/Gateway/Routes.antt =====
-- internal/transport/routes.go and internal/proxy/proxy.go.
pub mod Public
pub mod Guarded
pub mod Paths
use booking_venue.Base.{
  ℕ, Bool, true, false, not, ◌&&◌, ◌||◌, Option, none, some, List, [], ◌∷◌, ◌++◌, if◌then◌else◌,
  Result, ok, err,
}
use booking_venue.Clock.HourMinute.{Text}
use booking_venue.Strings.{bytes, same_text, is_empty_text, has_prefix, has_suffix, trim_prefix}
use booking_venue.Gateway.Auth.{Request, Tokens, Refusal, auth_unless}
use booking_venue.Gateway.Summary.{Answer, Client, get_booking_summary}

pub data Upstream : Type 0 where
  users venues reservations payments : Upstream

-- The routes of RegisterRoutes; gin chooses one by the path.
pub data Route : Type 0 where
  auth_path users_path : Route
  all_venues venues_path : Route
  all_venue_types venue_types_path : Route
  all_bookings bookings_path : Route
  all_payments payments_path : Route

abbrev pub is_get : Request → Bool
is_get req = same_text req.method (bytes "GET")

-- isPublicRequest
unfoldable pub is_public_request : Request → Bool
is_public_request req =
    if has_prefix req.path (bytes "/api/auth/")
    then true
    else if not (is_get req)
    then false
    else if same_text req.path (bytes "/api/venue-types")
        || has_prefix req.path (bytes "/api/venue-types/")
    then true
    else if same_text req.path (bytes "/api/venues") || has_prefix req.path (bytes "/api/venues/")
    then not (has_suffix req.path (bytes "/bookings"))
    else false

-- The path that ServeHTTP of an upstream asks for.
unfoldable pub strip_path : Text → Text → Text
strip_path prefix path =
    if is_empty_text prefix
    then path
    else let trimmed = trim_prefix path prefix in
      let trimmed = if is_empty_text trimmed then bytes "/" else trimmed in
      if has_prefix trimmed (bytes "/") then trimmed else b'/' ∷ trimmed

-- Where a request goes: to an upstream, or to the aggregator.
pub data Target : Type 0 where
  upstream : Upstream → Target
  summary : Target

-- The handlers of the routes.
unfoldable pub target_of : Route → Request → Target
target_of auth_path req = upstream users
target_of users_path req = upstream users
target_of all_venues req = upstream venues
target_of venues_path req =
    if has_suffix req.path (bytes "/availability") || has_suffix req.path (bytes "/bookings")
    then upstream reservations
    else upstream venues
target_of all_venue_types req = upstream venues
target_of venue_types_path req = upstream venues
target_of all_bookings req = upstream reservations
target_of bookings_path req =
    if is_get req && has_suffix req.path (bytes "/summary")
    then summary
    else if has_suffix req.path (bytes "/payment")
    then upstream payments
    else upstream reservations
target_of all_payments req = upstream payments
target_of payments_path req = upstream payments

-- What comes of a request: 401, a summary, or a request to an upstream.
pub data Outcome : Type 0 where
  unauthorized : Refusal → Outcome
  answered : Answer → Outcome
  forwarded : Upstream → Request → Outcome

unfoldable pub dispatch : Client → Target → Request → Outcome
unfolding strip_path
dispatch client summary req = answered (get_booking_summary client req)
dispatch client (upstream u) req =
    forwarded u (record req { path = strip_path (bytes "/api") req.path })

-- A request on one of the routes: the middleware of the group, then the handler.
unfoldable pub serve : Tokens → Text → ℕ → Client → Route → Request → Outcome
unfolding target_of dispatch
serve tokens secret now client route req =
    elim (auth_unless tokens secret now (is_public_request req) req) [
      | err e ↦ unauthorized e
      | ok req' ↦ dispatch client (target_of route req') req'
    ]
