-- ===== src/Payment/Transport/Pages.antt =====
-- The pages of GetPaymentsHistory.
use booking_venue.Base.{
  ℕ, ◌^◌, ◌≤◌, ◌<◌, ◌≡◌, refl, sym, ℤ, true, Option, none, some, List, [], ◌∷◌, map, ltb, length,
  take, drop, filter, All, All-take, All-drop, All-filter, length-take, arith, Bool-cases,
  Option-cases, inl, inr, subst,
}
use booking_venue.Strings.{is_empty_text}
use booking_venue.Strings.Laws.{parse_uint-lt}
use booking_venue.Payment.Model.{Payment, PaymentError}
use booking_venue.Payment.Repo.{
  Store, insert_newest, newest_first, is_of_user, limit_of, offset_of, get_payments_by_user_id,
}
use booking_venue.Payment.Transport.{
  PaymentHistoryResponse, history_body, payment_to_response, parse_uint_id, parse_limit_offset,
  HistoryQuery, user_of, history_reply, handle_history,
}

module _ (P : Payment → Type 0) where
  insert_newest-All :
      (p : Payment) (ps : List Payment) → P p → All P ps → All P (insert_newest p ps)
  unfolding insert_newest
  insert_newest-All p [] h a = (h, tt)
  insert_newest-All p (q ∷ ps) h a =
      elim (Bool-cases (ltb p.created_at.instant q.created_at.instant)) [
        | inl less ↦ rw less (a.0, insert_newest-All p ps h a.1)
        | inr more ↦ rw more (h, a)
      ]

  newest_first-All : (ps : List Payment) → All P ps → All P (newest_first ps)
  unfolding newest_first
  newest_first-All [] a = tt
  newest_first-All (p ∷ ps) a = insert_newest-All p (newest_first ps) a.0 (newest_first-All ps a.1)

-- A page holds payments of one user, whose id has 32 bits: those of the second store, the newest first,
-- from the offset on and no more than the limit. It says how many it holds, and how many the first store
-- holds of the user.
unfoldable pub IsPage : HistoryQuery → Store → Store → PaymentHistoryResponse → Type 0
IsPage q counted st page =
    let (limit, offset) = parse_limit_offset q.limit q.offset in
    (user : ℕ) × (parse_uint_id (user_of q) ≡ some user)
    × (user < 2 ^ 32)
    × (page.payments
        ≡ map payment_to_response (
            take (limit_of limit)
              (drop (offset_of offset) (newest_first (filter (is_of_user user) st.payments)))))
    × All (λ r. r.user_id ≡ user) page.payments
    × (page.count ≡ length page.payments)
    × (page.count ≤ limit_of limit)
    × (page.total ≡ length (filter (is_of_user user) counted.payments))

all_of_user :
    (user : ℕ) (ps : List Payment) → All (λ p. is_of_user user p ≡ true → p.user_id ≡ user) ps
all_of_user user [] = tt
all_of_user user (p ∷ ps) = (ground arith, all_of_user user ps)

length-responses : (ps : List Payment) → length (map payment_to_response ps) ≡ length ps
length-responses [] = refl
length-responses (p ∷ ps) = omega (arith, length-responses ps)

responses-All :
    (user : ℕ) (ps : List Payment)
    → All (λ p. p.user_id ≡ user) ps
    → All (λ r. r.user_id ≡ user) (map payment_to_response ps)
unfolding payment_to_response
responses-All user [] a = tt
responses-All user (p ∷ ps) a = (a.0, responses-All user ps a.1)

-- The body of the response for a user and a page's bounds.
page_of : ℕ → ℤ → ℤ → Store → Store → PaymentHistoryResponse
page_of user limit offset counted st =
    let matching = filter (is_of_user user) st.payments in
    let page = take (limit_of limit) (drop (offset_of offset) (newest_first matching)) in
    record {
      payments = map payment_to_response page;
      total = length (filter (is_of_user user) counted.payments);
      count = length page;
    }

page_of-IsPage :
    (q : HistoryQuery) (user : ℕ) (counted st : Store)
    → parse_uint_id (user_of q) ≡ some user
    → let (limit, offset) = parse_limit_offset q.limit q.offset in
      IsPage q counted st (page_of user limit offset counted st)
unfolding IsPage parse_uint_id page_of parse_limit_offset
page_of-IsPage q user counted st parsed =
    let (limit, offset) = parse_limit_offset q.limit q.offset in
    let matching = filter (is_of_user user) st.payments in
    let ordered = newest_first matching in
    let page = take (limit_of limit) (drop (offset_of offset) ordered) in
    let mine : All (λ p. p.user_id ≡ user) matching =
      All-filter _ (is_of_user user) st.payments (all_of_user user st.payments) in
    let shown : All (λ p. p.user_id ≡ user) page =
      All-take _ (limit_of limit) (drop (offset_of offset) ordered)
        (All-drop _ (offset_of offset) ordered (newest_first-All _ matching mine)) in
    (
      user,
      parsed,
      parse_uint-lt 32 (user_of q) user parsed,
      refl,
      responses-All user page shown,
      sym (length-responses page),
      length-take (limit_of limit) (drop (offset_of offset) ordered),
      refl,
    )

history_reply-page :
    (count_fault find_fault : Option PaymentError) (user : ℕ) (limit offset : ℤ)
    (counted st : Store) (page : PaymentHistoryResponse)
    → history_reply (get_payments_by_user_id count_fault find_fault user limit offset counted st)
      ≡ record { code = 200; body = history_body page }
    → page_of user limit offset counted st ≡ page
unfolding get_payments_by_user_id page_of
history_reply-page (some e) find_fault user limit offset counted st page h = cc h
history_reply-page none (some e) user limit offset counted st page h = cc h
history_reply-page none none user limit offset counted st page h = cc h

-- A page that GetPaymentsHistory answers with holds the payments of the one user that the request
-- names, by an id of 32 bits, as the SELECT finds them: the newest first, from the offset on and no more
-- than the limit. It says how many payments it holds; its total is what the COUNT has found, before other
-- requests may have come in between.
pub handle_history-IsPage :
    (count_fault find_fault : Option PaymentError) (q : HistoryQuery) (counted st : Store)
    (page : PaymentHistoryResponse)
    → handle_history count_fault find_fault q counted st
      ≡ record { code = 200; body = history_body page }
    → IsPage q counted st page
unfolding handle_history
handle_history-IsPage count_fault find_fault q counted st page h =
    elim (Bool-cases (is_empty_text (user_of q))) [
      | inl empty ↦ cc (rw empty at h)
      | inr named ↦ elim (Option-cases (parse_uint_id (user_of q))) [
        | inl bad ↦ cc (rw (named, bad) at h)
        | inr (user, parsed) ↦
            let (limit, offset) = parse_limit_offset q.limit q.offset in
            let shown = rw (named, parsed) at h in
            let same : page_of user limit offset counted st ≡ page =
              history_reply-page count_fault find_fault user limit offset counted st page shown in
            subst (λ (p : PaymentHistoryResponse). IsPage q counted st p) same
              (page_of-IsPage q user counted st parsed)
      ]
    ]
