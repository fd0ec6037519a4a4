-- ===== src/Gateway/Summary.antt =====
-- internal/transport/aggregate.go and internal/models/booking_summary.go. The HTTP client is a
-- parameter; the URLs that are asked are named by what stands in them.
pub mod Parts
use booking_venue.Base.{
  ℕ, Bool, true, false, not, ◌&&◌, ◌||◌, Option, none, some, List, [], ◌∷◌, ◌==◌, if◌then◌else◌,
  Result, ok, err,
}
use booking_venue.Clock.HourMinute.{Text}
use booking_venue.Strings.{
  bytes, same_text, is_empty_text, has_suffix, trim_prefix, trim_suffix, parse_uint,
}
use booking_venue.Gateway.Auth.{Request}

-- `<reservation>/bookings/<id>`, `<venue>/venues/<id>` and `<payment>/bookings/<id>/payment`.
pub data Url : Type 0 where
  booking_url : Text → Url
  venue_url : ℕ → Url
  payment_url : Text → Url

-- A body with its status, or an error of NewRequest, Do or ReadAll.
pub data Fetched : Type 0 where
  reply : Text → ℕ → Fetched
  unavailable : Fetched

-- The client takes the URL and the header Authorization, if there is one. `decode` is json.Unmarshal
-- into BookingSummaryLookup, `is_json` what json.Marshal asks of a raw message.
pub record Client : Type 0 where
  pub get : Url → Option Text → Fetched
  pub decode : Text → Option ℕ
  pub is_json : Text → Bool

-- fetchJSON
unfoldable pub fetch_json : Client → Request → Url → Fetched
fetch_json client req url =
    client.get url (if is_empty_text req.authorization then none else some req.authorization)

pub data Message : Type 0 where
  id_required invalid_id : Message
  reservation_unavailable invalid_booking : Message
  service_unavailable : Message
  service_status : ℕ → Message

-- BookingSummaryResponse; `none` is a field that is not set.
pub record BookingSummaryResponse : Type 0 where
  pub booking : Text
  pub venue : Option Text
  pub payment : Option Text
  pub venue_error : Option Message
  pub payment_error : Option Message

pub data Answer : Type 0 where
  error_answer : ℕ → Message → Answer
  passed_on : ℕ → Text → Answer
  summary_answer : BookingSummaryResponse → Answer
  empty_answer no_answer : Answer

-- The part of one service: its body, or why there is none.
abbrev pub part_of : Fetched → Option Text × Option Message
part_of unavailable = (none, some service_unavailable)
part_of (reply body status) =
    if status == 200 then (some body, none) else (none, some (service_status status))

abbrev pub summary_of :
    Text → Option Text × Option Message → Option Text × Option Message → BookingSummaryResponse
summary_of booking (venue, venue_error) (payment, payment_error) = record {
  booking = booking;
  venue = venue;
  payment = payment;
  venue_error = venue_error;
  payment_error = payment_error;
}

-- A raw message is encoded where it is JSON, and left out where it is empty.
abbrev pub is_encodable : Client → Option Text → Bool
is_encodable client none = true
is_encodable client (some body) = is_empty_text body || client.is_json body

-- The last call of `c.JSON`: gin sends the status alone where the summary cannot be encoded. The
-- booking has been decoded, so it is JSON.
abbrev pub rendered : Client → BookingSummaryResponse → Answer
rendered client s =
    if is_encodable client s.venue && is_encodable client s.payment
    then summary_answer s
    else empty_answer

-- The rest of GetBookingSummary, once the booking is known.
unfoldable pub summarize : Client → Request → Text → Text → Answer
unfolding fetch_json
summarize client req booking_id booking_body = elim (client.decode booking_body) [
  | none ↦ error_answer 502 invalid_booking
  | some venue_id ↦
      let venue = part_of (fetch_json client req (venue_url venue_id)) in
      let payment = part_of (fetch_json client req (payment_url booking_id)) in
      rendered client (summary_of booking_body venue payment)
]

abbrev pub from_booking : Client → Request → Text → Fetched → Answer
from_booking client req booking_id unavailable = error_answer 502 reservation_unavailable
from_booking client req booking_id (reply body status) =
    if not (status == 200) then passed_on status body else summarize client req booking_id body

-- `c.Param("path")` of the route `/api/bookings/*path`.
abbrev pub path_param : Request → Text
path_param req = trim_prefix req.path (bytes "/api/bookings")

abbrev pub booking_id_of : Text → Text
booking_id_of path = trim_prefix (trim_suffix path (bytes "/summary")) (bytes "/")

abbrev pub checked_summary : Client → Request → Text → Answer
checked_summary client req booking_id =
    if is_empty_text booking_id
    then error_answer 400 id_required
    else elim (parse_uint 64 booking_id) [
      | none ↦ error_answer 400 invalid_id
      | some k ↦ from_booking client req booking_id (fetch_json client req (booking_url booking_id))
    ]

-- GetBookingSummary
unfoldable pub get_booking_summary : Client → Request → Answer
unfolding fetch_json summarize
get_booking_summary client req =
    if not (same_text req.method (bytes "GET"))
    then no_answer
    else if not (has_suffix (path_param req) (bytes "/summary"))
    then no_answer
    else checked_summary client req (booking_id_of (path_param req))
