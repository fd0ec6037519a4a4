-- ===== src/Examples/Gateway.antt =====
-- A gateway whose tokens carry a UUID, and one that reads the tokens of the user service.
use booking_venue.Base.{
  ℕ, ◌≡◌, ◌⊎◌, refl, sym, ap, ◌∙◌, Bool-cases, inl, inr, Bool, true, ◌&&◌, Option, none, some, [],
  ◌∷◌, ◌++◌, ltb, ◌*◌, if◌then◌else◌,
}
use booking_venue.Clock.{second}
use booking_venue.Clock.HourMinute.{Text}
use booking_venue.Strings.{
  bytes, same_text, parse_uint, has_prefix, has_suffix, trim_prefix, trim_suffix, parse_digits,
}
use booking_venue.Examples.Users.{auth_env, ann, ann_token, ann-signed, role_code}
use booking_venue.Gateway.Auth.{IdValue, number, string, Request, Payload, Tokens, Refusal}
use booking_venue.Gateway.Auth.Passing.{IsAuthenticated}
use booking_venue.Gateway.Routes.{
  bookings_path, venues_path, target_of, is_public_request, unauthorized, dispatch, serve,
}
use booking_venue.Gateway.Routes.Paths.{is_on}
use booking_venue.Gateway.Routes.Public.{IsOpenTarget, is_public_request-target}
use booking_venue.Gateway.Routes.Guarded.{serve-guarded, CarriesNumber, generate_token-refused}
use booking_venue.Gateway.Summary.{
  Url, booking_url, venue_url, payment_url, Fetched, reply, unavailable, Client, fetch_json,
  BookingSummaryResponse, summary_answer, get_booking_summary, booking_id_of, path_param,
  service_unavailable,
}
use booking_venue.Gateway.Summary.Parts.{
  IsSummary, get_booking_summary-IsSummary, get_booking_summary-answers,
}

-- A token is an id, a role and an instant of expiry, then the secret; `id` tells how the id is written
-- in its JSON.
abbrev accept : Payload → Bool → Text → Option Text → Option (Payload × Bool)
accept payload live s none = none
accept payload live s (some secret) =
    if same_text s secret && live then some (payload, true) else none

abbrev read_token : (ℕ → IdValue) → (Text → Option Text) → ℕ → Text → Option (Payload × Bool)
read_token id key now (i ∷ r ∷ e ∷ s) =
    accept (record { user_id = id i; role = r ∷ [] }) (ltb now (e * second)) s (key (bytes "HS256"))
read_token id key now _ = none

-- The tokens of the user service, and tokens with a UUID.
abbrev numbered : Tokens
numbered = record { parse = read_token number; uuid = λ s. some s }

abbrev named : Tokens
named = record { parse = read_token (λ i. string (i ∷ [])); uuid = λ s. some s }

abbrev client : Client
client = record {
  get = λ url auth. answer url;
  decode = λ body. some 3;
  is_json = λ body. same_text body (bytes "{}");
}
  where
    answer : Url → Fetched
    answer (booking_url id) = reply (bytes "{}") 200
    answer (venue_url k) = reply (bytes "{}") 200
    answer (payment_url id) = unavailable

abbrev summary_request : Request
summary_request = record {
  method = bytes "GET";
  path = bytes "/api/bookings/17/summary";
  authorization = bytes "Bearer" ++ b' ' ∷ ann_token;
  user_id = none;
  user_role = none;
}

abbrev venue_request : Request
venue_request = record summary_request { path = bytes "/api/venues/3/availability" }

numbered-CarriesNumber : CarriesNumber auth_env.crypto numbered
numbered-CarriesNumber secret claims token key now payload valid signed parsed =
    let made : (claims.user_id ∷ role_code claims.role ∷ claims.expires_at ∷ secret) ≡ token =
      cc signed in
    let read = ap (read_token number key now) made ∙ parsed in
    let id = accepted _ _ secret (key (bytes "HS256")) payload valid read in
    sym (ap (λ (p : Payload). p.user_id) id)
  where
    accepted :
        (p : Payload) (live : Bool) (s : Text) (k : Option Text) (q : Payload) (v : Bool)
        → accept p live s k ≡ some (q, v)
        → p ≡ q
    accepted p live s none q v h = cc h
    accepted p live s (some k) q v h = elim (Bool-cases (same_text s k && live)) [
      | inl fine ↦ cc (rw fine at h)
      | inr bad ↦ cc (rw bad at h)
    ]

abbrev secret : Text
secret = 115 ∷ 51 ∷ []

serve-guarded_example :
    ((e : Refusal) × (serve named secret 0 client bookings_path summary_request ≡ unauthorized e))
    ⊎ ((req' : Request) × IsAuthenticated named secret 0 summary_request req'
        × (serve named secret 0 client bookings_path summary_request
            ≡ dispatch client (target_of bookings_path req') req'))
unfolding is_public_request has_prefix
serve-guarded_example = serve-guarded named secret 0 client bookings_path summary_request refl

generate_token-refused_example :
    (e : Refusal) × (serve numbered secret 0 client bookings_path summary_request ≡ unauthorized e)
unfolding is_public_request has_prefix
generate_token-refused_example =
    generate_token-refused numbered secret 0 client bookings_path summary_request auth_env ann
      ann_token numbered-CarriesNumber ann-signed refl refl

is_public_request-target_example : IsOpenTarget venue_request (target_of venues_path venue_request)
unfolding is_on is_public_request has_prefix has_suffix
is_public_request-target_example = is_public_request-target venue_request venues_path refl refl

abbrev the_summary : BookingSummaryResponse
the_summary = record {
  booking = bytes "{}";
  venue = some (bytes "{}");
  payment = none;
  venue_error = none;
  payment_error = some service_unavailable;
}

summarized : get_booking_summary client summary_request ≡ summary_answer the_summary
unfolding get_booking_summary has_suffix trim_prefix trim_suffix parse_uint
summarized = refl

get_booking_summary-IsSummary_example :
    IsSummary client summary_request (booking_id_of (path_param summary_request)) the_summary
get_booking_summary-IsSummary_example =
    get_booking_summary-IsSummary client summary_request the_summary summarized

get_booking_summary-answers_example :
    (s : BookingSummaryResponse) × (get_booking_summary client summary_request ≡ summary_answer s)
unfolding parse_uint parse_digits fetch_json
get_booking_summary-answers_example =
    get_booking_summary-answers client summary_request (bytes "17") (bytes "{}") 17 3 refl refl refl
      refl refl refl refl
