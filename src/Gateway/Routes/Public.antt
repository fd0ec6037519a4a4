-- ===== src/Gateway/Routes/Public.antt =====
-- What passes the gateway without a token, and where it goes.
use booking_venue.Base.{
  ◌≡◌, ◌↔◌, refl, ap, Bool, true, false, not, ◌&&◌, ◌||◌, ◌++◌, Bool-cases, inl, inr, arith,
}
use booking_venue.Strings.{bytes, has_prefix, has_suffix}
use booking_venue.Strings.Laws.{same_text→eq, agree}
use booking_venue.Gateway.Auth.{Request}
use booking_venue.Gateway.Routes.{
  users, venues, reservations, payments, Route, auth_path, users_path, all_venues, venues_path,
  all_venue_types, venue_types_path, all_bookings, bookings_path, all_payments, payments_path,
  is_get, is_public_request, Target, upstream, summary, target_of,
}
use booking_venue.Gateway.Routes.Paths.{base_of, is_on, is_on-apart}

-- The requests that pass without a token, by their route: to sign in or register, and to read venues, a
-- venue or the types of venues, but not the bookings of a venue.
abbrev pub IsOpen : Route → Request → Type 0
IsOpen auth_path req = Unit
IsOpen all_venues req = is_get req ≡ true
IsOpen venues_path req = (is_get req ≡ true) × (has_suffix req.path (bytes "/bookings") ≡ false)
IsOpen all_venue_types req = is_get req ≡ true
IsOpen venue_types_path req = is_get req ≡ true
IsOpen _ req = ⊥

-- The tests of isPublicRequest on the path of a route that is none of the public ones.
closed :
    (req : Request) (route : Route)
    → is_on route req.path ≡ true
    → agree (bytes "/api" ++ base_of route) (bytes "/api/auth/") ≡ false
    → agree (bytes "/api" ++ base_of route) (bytes "/api/venue-types") ≡ false
    → agree (bytes "/api" ++ base_of route) (bytes "/api/venue-types/") ≡ false
    → agree (bytes "/api" ++ base_of route) (bytes "/api/venues") ≡ false
    → agree (bytes "/api" ++ base_of route) (bytes "/api/venues/") ≡ false
    → is_public_request req ≡ false
unfolding is_public_request
closed req route on at_auth at_types at_type at_venues at_venue =
    let (not_auth, _) = is_on-apart route req.path (bytes "/api/auth/") on at_auth in
    let (_, not_types) = is_on-apart route req.path (bytes "/api/venue-types") on at_types in
    let (not_type, _) = is_on-apart route req.path (bytes "/api/venue-types/") on at_type in
    let (_, not_venues) = is_on-apart route req.path (bytes "/api/venues") on at_venues in
    let (not_venue, _) = is_on-apart route req.path (bytes "/api/venues/") on at_venue in
    elim (Bool-cases (is_get req)) [
      | inl get ↦ rw (not_auth, get, not_types, not_type, not_venues, not_venue) refl
      | inr other ↦ rw (not_auth, other) refl
    ]

-- What isPublicRequest decides on the routes of which a part is public.
public_types :
    (req : Request) → is_on all_venue_types req.path ≡ true → is_public_request req ≡ is_get req
unfolding is_public_request is_on
public_types req on =
    let (not_auth, _) = is_on-apart all_venue_types req.path (bytes "/api/auth/") on refl in
    elim (Bool-cases (is_get req)) [
      | inl get ↦ rw (not_auth, get, on) refl
      | inr other ↦ rw (not_auth, other) refl
    ]

or_true : (b : Bool) → (b || true) ≡ true
or_true true = refl
or_true false = refl

public_type :
    (req : Request) → is_on venue_types_path req.path ≡ true → is_public_request req ≡ is_get req
unfolding is_public_request is_on
public_type req on =
    let (not_auth, _) = is_on-apart venue_types_path req.path (bytes "/api/auth/") on refl in
    elim (Bool-cases (is_get req)) [
      | inl get ↦ rw (not_auth, get, on, or_true) refl
      | inr other ↦ rw (not_auth, other) refl
    ]

public_venue :
    (req : Request)
    → is_on venues_path req.path ≡ true
    → is_public_request req ≡ (is_get req && not (has_suffix req.path (bytes "/bookings")))
unfolding is_public_request is_on
public_venue req on =
    let (not_auth, _) = is_on-apart venues_path req.path (bytes "/api/auth/") on refl in
    let (_, not_types) = is_on-apart venues_path req.path (bytes "/api/venue-types") on refl in
    let (not_type, _) = is_on-apart venues_path req.path (bytes "/api/venue-types/") on refl in
    elim (Bool-cases (is_get req)) [
      | inl get ↦ rw (not_auth, get, not_types, not_type, on, or_true) refl
      | inr other ↦ rw (not_auth, other) refl
    ]

public_venues :
    (req : Request) → is_on all_venues req.path ≡ true → is_public_request req ≡ is_get req
unfolding is_public_request is_on has_suffix
public_venues req on =
    let (not_auth, _) = is_on-apart all_venues req.path (bytes "/api/auth/") on refl in
    let (_, not_types) = is_on-apart all_venues req.path (bytes "/api/venue-types") on refl in
    let (not_type, _) = is_on-apart all_venues req.path (bytes "/api/venue-types/") on refl in
    let here : has_suffix req.path (bytes "/bookings") ≡ false =
      ap (λ s. has_suffix s (bytes "/bookings")) (same_text→eq req.path (bytes "/api/venues") on) in
    elim (Bool-cases (is_get req)) [
      | inl get ↦ rw (not_auth, get, not_types, not_type, on, here) refl
      | inr other ↦ rw (not_auth, other) refl
    ]

public_auth : (req : Request) → is_on auth_path req.path ≡ true → is_public_request req ≡ true
unfolding is_public_request is_on
public_auth req on = rw on refl

never : {b : Bool} → b ≡ false → (b ≡ true) ↔ ⊥
never h = (λ k. cc (h, k), λ k. absurd k)

-- On each route, a request is public exactly where it is one of those that pass without a token.
pub is_public_request_iff :
    (req : Request) (route : Route)
    → is_on route req.path ≡ true
    → (is_public_request req ≡ true) ↔ IsOpen route req
is_public_request_iff req auth_path on = (λ _. tt, λ _. public_auth req on)
is_public_request_iff req users_path on = never (closed req users_path on refl refl refl refl refl)
is_public_request_iff req all_venues on = rw (public_venues req on) (λ h. h, λ h. h)
is_public_request_iff req venues_path on = rw (public_venue req on) (ground arith)
is_public_request_iff req all_venue_types on = rw (public_types req on) (λ h. h, λ h. h)
is_public_request_iff req venue_types_path on = rw (public_type req on) (λ h. h, λ h. h)
is_public_request_iff req all_bookings on =
    never (closed req all_bookings on refl refl refl refl refl)
is_public_request_iff req bookings_path on =
    never (closed req bookings_path on refl refl refl refl refl)
is_public_request_iff req all_payments on =
    never (closed req all_payments on refl refl refl refl refl)
is_public_request_iff req payments_path on =
    never (closed req payments_path on refl refl refl refl refl)

-- Where a request goes that needs no token: to the user service, to the venue service, or, to read the
-- free times of a venue, to the reservation service.
abbrev pub IsOpenTarget : Request → Target → Type 0
IsOpenTarget req summary = ⊥
IsOpenTarget req (upstream users) = has_prefix req.path (bytes "/api/auth/") ≡ true
IsOpenTarget req (upstream venues) = is_get req ≡ true
IsOpenTarget req (upstream reservations) =
    (is_get req ≡ true) × (has_suffix req.path (bytes "/availability") ≡ true)
IsOpenTarget req (upstream payments) = ⊥

open-target :
    (req : Request) (route : Route)
    → is_on route req.path ≡ true
    → IsOpen route req
    → IsOpenTarget req (target_of route req)
unfolding target_of is_on
open-target req auth_path on h = on
open-target req users_path on h = absurd h
open-target req all_venues on h = h
open-target req venues_path on h = elim (Bool-cases (has_suffix req.path (bytes "/availability"))) [
  | inl times ↦ rw times (h.0, times)
  | inr other ↦ rw (other, h.1) h.0
]
open-target req all_venue_types on h = h
open-target req venue_types_path on h = h
open-target req all_bookings on h = absurd h
open-target req bookings_path on h = absurd h
open-target req all_payments on h = absurd h
open-target req payments_path on h = absurd h

-- A public request on a route goes to the user service under /api/auth/, by GET to the venue service,
-- or by GET to the reservation service for the free times of a venue; never to the payment service and
-- never to the summary of a booking.
pub is_public_request-target :
    (req : Request) (route : Route)
    → is_on route req.path ≡ true
    → is_public_request req ≡ true
    → IsOpenTarget req (target_of route req)
is_public_request-target req route on public =
    open-target req route on ((is_public_request_iff req route on).0 public)
