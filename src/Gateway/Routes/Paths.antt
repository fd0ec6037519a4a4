-- ===== src/Gateway/Routes/Paths.antt =====
-- The paths of the routes, and the path that an upstream is asked for.
use booking_venue.Base.{
  ◌≡◌, refl, sym, ap, ◌∙◌, Bool, true, false, ◌∷◌, ◌++◌, if◌then◌else◌, Bool-cases, inl, inr,
}
use booking_venue.Clock.HourMinute.{Text}
use booking_venue.Strings.{bytes, same_text, has_prefix, after_prefix, trim_prefix}
use booking_venue.Strings.Laws.{
  same_text-has_prefix, has_prefix-agree, has_prefix-append, has_prefix→append, agree,
}
use booking_venue.Gateway.Routes.{
  Route, auth_path, users_path, all_venues, venues_path, all_venue_types, venue_types_path,
  all_bookings, bookings_path, all_payments, payments_path, strip_path,
}

-- A route's path after `/api`, and whether more follows it.
abbrev pub base_of : Route → Text
base_of auth_path = bytes "/auth/"
base_of users_path = bytes "/users/"
base_of all_venues = bytes "/venues"
base_of venues_path = bytes "/venues/"
base_of all_venue_types = bytes "/venue-types"
base_of venue_types_path = bytes "/venue-types/"
base_of all_bookings = bytes "/bookings"
base_of bookings_path = bytes "/bookings/"
base_of all_payments = bytes "/payments"
base_of payments_path = bytes "/payments/"

abbrev pub has_rest : Route → Bool
has_rest all_venues = false
has_rest all_venue_types = false
has_rest all_bookings = false
has_rest all_payments = false
has_rest _ = true

-- The paths that gin documents to match the route: `*path` stands for any rest.
unfoldable pub is_on : Route → Text → Bool
is_on route path =
    if has_rest route
    then has_prefix path (bytes "/api" ++ base_of route)
    else same_text path (bytes "/api" ++ base_of route)

pub is_on-has_prefix :
    (route : Route) (path : Text)
    → is_on route path ≡ true
    → has_prefix path (bytes "/api" ++ base_of route) ≡ true
unfolding is_on
is_on-has_prefix route path h = elim (Bool-cases (has_rest route)) [
  | inl more ↦ rw more at h
  | inr exact ↦ same_text-has_prefix path (bytes "/api" ++ base_of route) (rw exact at h)
]

-- Every route has its slash after `/api`.
base_of-slash : (route : Route) → (rest : Text) × (base_of route ≡ b'/' ∷ rest)
base_of-slash auth_path = (_, refl)
base_of-slash users_path = (_, refl)
base_of-slash all_venues = (_, refl)
base_of-slash venues_path = (_, refl)
base_of-slash all_venue_types = (_, refl)
base_of-slash venue_types_path = (_, refl)
base_of-slash all_bookings = (_, refl)
base_of-slash bookings_path = (_, refl)
base_of-slash all_payments = (_, refl)
base_of-slash payments_path = (_, refl)

strip_path-api :
    (rest : Text) → strip_path (bytes "/api") (bytes "/api" ++ b'/' ∷ rest) ≡ b'/' ∷ rest
unfolding strip_path trim_prefix has_prefix after_prefix
strip_path-api rest = refl

strip_path-base :
    (route : Route) (rest : Text)
    → strip_path (bytes "/api") (bytes "/api" ++ base_of route ++ rest) ≡ base_of route ++ rest
strip_path-base route rest =
    let (more, slash) = base_of-slash route in rw slash (strip_path-api (more ++ rest))

-- On a route the upstream is asked for what follows `/api`, and that begins with the route's own path.
pub strip_path-is_on :
    (route : Route) (path : Text)
    → is_on route path ≡ true
    → (path ≡ bytes "/api" ++ strip_path (bytes "/api") path)
      × (has_prefix (strip_path (bytes "/api") path) (base_of route) ≡ true)
strip_path-is_on route path h =
    let rest = after_prefix path (bytes "/api" ++ base_of route) in
    let split : path ≡ bytes "/api" ++ base_of route ++ rest =
      has_prefix→append path (bytes "/api" ++ base_of route) (is_on-has_prefix route path h) in
    let stripped : strip_path (bytes "/api") path ≡ base_of route ++ rest =
      ap (strip_path (bytes "/api")) split ∙ strip_path-base route rest in
    (
      split ∙ ap (λ s. bytes "/api" ++ s) (sym stripped),
      ap (λ s. has_prefix s (base_of route)) stripped ∙ has_prefix-append (base_of route) rest,
    )

-- Two routes' paths, or a route's and another text, that one path begins with.
pub is_on-agree :
    (route : Route) (path p : Text)
    → is_on route path ≡ true
    → has_prefix path p ≡ true
    → agree (bytes "/api" ++ base_of route) p ≡ true
is_on-agree route path p h k =
    has_prefix-agree path (bytes "/api" ++ base_of route) p (is_on-has_prefix route path h) k

pub is_on-apart :
    (route : Route) (path p : Text)
    → is_on route path ≡ true
    → agree (bytes "/api" ++ base_of route) p ≡ false
    → (has_prefix path p ≡ false) × (same_text path p ≡ false)
is_on-apart route path p h apart = (prefix, exact)
  where
    prefix : has_prefix path p ≡ false
    prefix = elim (Bool-cases (has_prefix path p)) [
      | inl k ↦ cc (apart, is_on-agree route path p h k)
      | inr k ↦ k
    ]

    exact : same_text path p ≡ false
    exact = elim (Bool-cases (same_text path p)) [
      | inl k ↦ cc (apart, is_on-agree route path p h (same_text-has_prefix path p k))
      | inr k ↦ k
    ]
