-- ===== src/Gateway/Summary/Parts.antt =====
-- The summary of a booking: what it is made of, and when there is one.
use booking_venue.Base.{
  ℕ, ◌&&◌, ◌≡◌, ◌≢◌, ◌⊎◌, refl, ap, ◌∙◌, subst, true, false, Option, none, some, [], ◌∷◌, ◌++◌,
  ◌==◌, ==_iff, Bool-cases, Option-cases, inl, inr, arith,
}
use booking_venue.Clock.HourMinute.{Text}
use booking_venue.Strings.{bytes, same_text, is_empty_text, has_suffix, trim_prefix, parse_uint}
use booking_venue.Strings.Laws.{trim_prefix-append}
use booking_venue.Strings.Suffixes.{has_suffix-append, trim_suffix-append}
use booking_venue.Gateway.Auth.{Request}
use booking_venue.Gateway.Summary.{
  booking_url, venue_url, payment_url, Fetched, reply, unavailable, Client, fetch_json, Message,
  BookingSummaryResponse, summary_answer, part_of, summary_of, is_encodable, rendered, summarize,
  from_booking, path_param, booking_id_of, checked_summary, get_booking_summary,
}

-- One part: the body of an answer with status 200, or the reason why there is no such answer.
abbrev pub IsPart : Fetched → Option Text → Option Message → Type 0
IsPart fetched body problem =
    ((b : Text) × (fetched ≡ reply b 200) × (body ≡ some b) × (problem ≡ none))
    ⊎ (((b : Text) → fetched ≢ reply b 200) × (body ≡ none) × (m : Message) × (problem ≡ some m))

part_of-IsPart : (f : Fetched) → IsPart f (part_of f).0 (part_of f).1
part_of-IsPart unavailable = inr (λ b e. cc e, refl, _, refl)
part_of-IsPart (reply body status) = elim (Bool-cases (status == 200)) [
  | inl fine ↦ rw fine (inl (body, ap (reply body) ((==_iff status 200).0 fine), refl, refl))
  | inr other ↦ rw other (inr (λ b e. ground (arith, e), refl, _, refl))
]

-- A summary holds the booking's answer as it came, and of the venue and of the payment either the
-- answer or the reason why there is none.
unfoldable pub IsSummary : Client → Request → Text → BookingSummaryResponse → Type 0
IsSummary client req id s =
    (venue_id : ℕ) × (fetch_json client req (booking_url id) ≡ reply s.booking 200)
    × (client.decode s.booking ≡ some venue_id)
    × IsPart (fetch_json client req (venue_url venue_id)) s.venue s.venue_error
    × IsPart (fetch_json client req (payment_url id)) s.payment s.payment_error

rendered-same :
    (client : Client) (s t : BookingSummaryResponse) → rendered client s ≡ summary_answer t → s ≡ t
rendered-same client s t h =
    elim (Bool-cases (is_encodable client s.venue && is_encodable client s.payment)) [
      | inl fine ↦ cc (rw fine at h)
      | inr raw ↦ cc (rw raw at h)
    ]

summarize-IsSummary :
    (client : Client) (req : Request) (id booking : Text) (s : BookingSummaryResponse)
    → fetch_json client req (booking_url id) ≡ reply booking 200
    → summarize client req id booking ≡ summary_answer s
    → IsSummary client req id s
unfolding summarize IsSummary
summarize-IsSummary client req id booking s fetched h =
    elim (Option-cases (client.decode booking)) [
      | inl none_given ↦ cc (rw (none_given, summarize) at h)
      | inr (venue_id, given) ↦
          let v = fetch_json client req (venue_url venue_id) in
          let p = fetch_json client req (payment_url id) in
          let made = summary_of booking (part_of v) (part_of p) in
          let here : made ≡ s = rendered-same client made s (cc (rw (given, summarize) at h)) in
          subst (λ (t : BookingSummaryResponse). IsSummary client req id t) here
            (venue_id, fetched, given, part_of-IsPart v, part_of-IsPart p)
    ]

-- GetBookingSummary answers with a summary only after the reservation service has answered with status
-- 200 and a body that names a venue. The summary holds that body, and of the venue and of the payment
-- either the body of an answer with status 200 or a message, never both and never neither.
pub get_booking_summary-IsSummary :
    (client : Client) (req : Request) (s : BookingSummaryResponse)
    → get_booking_summary client req ≡ summary_answer s
    → IsSummary client req (booking_id_of (path_param req)) s
unfolding get_booking_summary
get_booking_summary-IsSummary client req s h =
    elim (Bool-cases (same_text req.method (bytes "GET"))) [
      | inr other ↦ cc (rw other at h)
      | inl get ↦ elim (Bool-cases (has_suffix (path_param req) (bytes "/summary"))) [
        | inr other ↦ cc (rw (get, other) at h)
        | inl named ↦ checked (booking_id_of (path_param req)) (rw (get, named) at h)
      ]
    ]
  where
    from :
        (id : Text) (f : Fetched)
        → fetch_json client req (booking_url id) ≡ f
        → from_booking client req id f ≡ summary_answer s
        → IsSummary client req id s
    from id unavailable e k = cc k
    from id (reply body status) e k = elim (Bool-cases (status == 200)) [
      | inr other ↦ cc (rw other at k)
      | inl fine ↦
          summarize-IsSummary client req id body s
            (e ∙ ap (reply body) ((==_iff status 200).0 fine)) (rw fine at k)
    ]

    checked :
        (id : Text) → checked_summary client req id ≡ summary_answer s → IsSummary client req id s
    checked id k = elim (Bool-cases (is_empty_text id)) [
      | inl empty ↦ cc (rw empty at k)
      | inr given ↦ elim (Option-cases (parse_uint 64 id)) [
        | inl bad ↦ cc (rw (given, bad) at k)
        | inr (n, good) ↦
            from id (fetch_json client req (booking_url id)) refl (rw (given, good) at k)
      ]
    ]

parsed-nonempty : (id : Text) (k : ℕ) → parse_uint 64 id ≡ some k → is_empty_text id ≡ false
unfolding parse_uint
parsed-nonempty [] k h = cc h
parsed-nonempty (c ∷ id) k h = refl

checked_summary-answers :
    (client : Client) (req : Request) (id booking : Text) (k venue_id : ℕ)
    → parse_uint 64 id ≡ some k
    → fetch_json client req (booking_url id) ≡ reply booking 200
    → client.decode booking ≡ some venue_id
    → is_encodable client (part_of (fetch_json client req (venue_url venue_id))).0 ≡ true
    → is_encodable client (part_of (fetch_json client req (payment_url id))).0 ≡ true
    → (s : BookingSummaryResponse) × (checked_summary client req id ≡ summary_answer s)
unfolding summarize
checked_summary-answers client req id booking k venue_id parsed fetched given venue payment =
    let v = part_of (fetch_json client req (venue_url venue_id)) in
    let p = part_of (fetch_json client req (payment_url id)) in
    let s = summary_of booking v p in
    let fine : is_encodable client s.venue && is_encodable client s.payment ≡ true =
      rw (venue, payment) refl in
    (s, rw (parsed-nonempty id k parsed, parsed, fetched, summarize, given, fine) refl)

-- A GET of /api/bookings/<id>/summary, with an id of 64 bits, is answered with a summary as soon as the
-- reservation service answers with status 200 and a body that names a venue, whatever the venue service
-- and the payment service answer, and where they do not answer, as long as a body that they answer
-- with status 200 is empty or JSON.
pub get_booking_summary-answers :
    (client : Client) (req : Request) (id booking : Text) (k venue_id : ℕ)
    → req.method ≡ bytes "GET"
    → req.path ≡ bytes "/api/bookings" ++ b'/' ∷ (id ++ bytes "/summary")
    → parse_uint 64 id ≡ some k
    → fetch_json client req (booking_url id) ≡ reply booking 200
    → client.decode booking ≡ some venue_id
    → is_encodable client (part_of (fetch_json client req (venue_url venue_id))).0 ≡ true
    → is_encodable client (part_of (fetch_json client req (payment_url id))).0 ≡ true
    → (s : BookingSummaryResponse) × (get_booking_summary client req ≡ summary_answer s)
unfolding get_booking_summary summarize
get_booking_summary-answers client req id booking k venue_id get path parsed fetched given venue
      payment =
    let param : path_param req ≡ b'/' ∷ (id ++ bytes "/summary") =
      ap (λ p. trim_prefix p (bytes "/api/bookings")) path
      ∙ trim_prefix-append (bytes "/api/bookings") (b'/' ∷ (id ++ bytes "/summary")) in
    let named : has_suffix (path_param req) (bytes "/summary") ≡ true =
      ap (λ p. has_suffix p (bytes "/summary")) param
      ∙ has_suffix-append (b'/' ∷ id) (bytes "/summary") in
    let same : booking_id_of (path_param req) ≡ id =
      ap booking_id_of param
      ∙ ap (λ p. trim_prefix p (bytes "/")) (trim_suffix-append (b'/' ∷ id) b'/' (bytes "summary"))
      ∙ trim_prefix-append (bytes "/") id in
    let whole : get_booking_summary client req ≡ checked_summary client req id =
      rw (get, named) refl ∙ ap (checked_summary client req) same in
    let (s, answered) =
      checked_summary-answers client req id booking k venue_id parsed fetched given venue payment in
    (s, whole ∙ answered)
