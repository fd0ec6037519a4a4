-- ===== src/Payment/Repo.antt =====
-- internal/repository of the payment service, and the database that it works on. Each call may also
-- fail with the error that it is given.
pub mod Rows
use booking_venue.Base.{
  ℕ, ◌+◌, Bool, false, not, ◌&&◌, Option, none, some, List, [], ◌∷◌, ◌++◌, ◌==◌, if◌then◌else◌,
  filter, length, take, drop, ltb, ℤ, pos, negsuc, leb_ℤ, Result, ok, err, ◌>>=◌, ◌>>◌, check,
}
use booking_venue.Clock.{Time}
use booking_venue.Payment.Model.{Payment, Refund, PaymentError, err_not_found, record_not_found}

-- The two tables, each in the order of its primary key, and the values of their sequences.
pub record Store : Type 0 where
  pub payments : List Payment
  pub next_payment_id : ℕ
  pub refunds : List Refund
  pub next_refund_id : ℕ

-- `First(&payment, id)` on a table whose rows have `deleted_at IS NULL`.
unfoldable pub first_by_id : ℕ → List Payment → Result PaymentError Payment
first_by_id k [] = err record_not_found
first_by_id k (p ∷ ps) = if p.id == k && not p.deleted then ok p else first_by_id k ps

-- `Where("booking_id = ?", b).First(&payment)`: the match with the least id.
unfoldable pub first_by_booking : ℕ → List Payment → Result PaymentError Payment
first_by_booking b [] = err record_not_found
first_by_booking b (p ∷ ps) =
    if p.booking_id == b && not p.deleted then ok p else first_by_booking b ps

-- gorm.ErrRecordNotFound becomes the repository's ErrNotFound.
abbrev pub wrap_not_found : {A : Type 0} → Result PaymentError A → Result PaymentError A
wrap_not_found (ok a) = ok a
wrap_not_found (err record_not_found) = err err_not_found
wrap_not_found (err e) = err e

unfoldable pub get_payment_by_id : Option PaymentError → ℕ → Store → Result PaymentError Payment
get_payment_by_id fault k st = wrap_not_found (check fault >> first_by_id k st.payments)

unfoldable pub get_payment_by_booking_id :
    Option PaymentError → ℕ → Store → Result PaymentError Payment
get_payment_by_booking_id fault b st =
    wrap_not_found (check fault >> first_by_booking b st.payments)

-- An insert gives the row its id and its two times.
unfoldable pub create_payment : Time → Payment → Store → Payment × Store
create_payment now p st =
    let p' : Payment = record p {
      id = st.next_payment_id;
      created_at = now;
      updated_at = now;
      deleted = false;
    } in
    (p', record st { payments = st.payments ++ p' ∷ []; next_payment_id = st.next_payment_id + 1 })

unfoldable pub put_payment : Payment → List Payment → List Payment
put_payment p [] = p ∷ []
put_payment p (q ∷ qs) = if q.id == p.id then p ∷ qs else q ∷ put_payment p qs

-- `Save`
unfoldable pub update_payment : Time → Payment → Store → Store
unfolding put_payment
update_payment now p st = record st {
  payments = put_payment (record p { updated_at = now }) st.payments;
}

unfoldable pub create_refund : Time → Refund → Store → Refund × Store
create_refund now r st =
    let r' : Refund = record r {
      id = st.next_refund_id;
      created_at = now;
      updated_at = now;
      deleted = false;
    } in
    (r', record st { refunds = st.refunds ++ r' ∷ []; next_refund_id = st.next_refund_id + 1 })

-- `Order("created_at DESC")`; which of two rows with one time comes first is not specified.
unfoldable pub insert_newest : Payment → List Payment → List Payment
insert_newest p [] = p ∷ []
insert_newest p (q ∷ qs) =
    if ltb p.created_at.instant q.created_at.instant then q ∷ insert_newest p qs else p ∷ q ∷ qs

unfoldable pub newest_first : List Payment → List Payment
unfolding insert_newest
newest_first [] = []
newest_first (p ∷ ps) = insert_newest p (newest_first ps)

abbrev pub is_of_user : ℕ → Payment → Bool
is_of_user user p = p.user_id == user && not p.deleted

-- `if limit <= 0 { limit = 10 }` and `if offset < 0 { offset = 0 }`
abbrev pub limit_of : ℤ → ℕ
limit_of (pos n) = if n == 0 then 10 else n
limit_of (negsuc n) = 10

abbrev pub offset_of : ℤ → ℕ
offset_of (pos n) = n
offset_of (negsuc n) = 0

-- A page of the user's payments, and how many there are in all. `counted` is the store of the COUNT,
-- `st` that of the SELECT: the two statements have no transaction.
unfoldable pub get_payments_by_user_id :
    Option PaymentError
    → Option PaymentError
    → ℕ
    → ℤ
    → ℤ
    → Store
    → Store
    → Result PaymentError (List Payment × ℕ)
unfolding newest_first
get_payments_by_user_id count_fault find_fault user limit offset counted st = do
  check count_fault
  let total = length (filter (is_of_user user) counted.payments)
  check find_fault
  let ordered = newest_first (filter (is_of_user user) st.payments)
  ok (take (limit_of limit) (drop (offset_of offset) ordered), total)

-- The refunds; `Preload("Payment")` only adds the payment to the value for the caller.
unfoldable pub first_refund : ℕ → List Refund → Result PaymentError Refund
first_refund k [] = err record_not_found
first_refund k (r ∷ rs) = if r.id == k && not r.deleted then ok r else first_refund k rs

unfoldable pub get_refund_by_id : Option PaymentError → ℕ → Store → Result PaymentError Refund
unfolding first_refund
get_refund_by_id fault k st = wrap_not_found (check fault >> first_refund k st.refunds)

unfoldable pub insert_refund_newest : Refund → List Refund → List Refund
insert_refund_newest r [] = r ∷ []
insert_refund_newest r (s ∷ ss) =
    if ltb r.created_at.instant s.created_at.instant
    then s ∷ insert_refund_newest r ss
    else r ∷ s ∷ ss

unfoldable pub refunds_newest_first : List Refund → List Refund
unfolding insert_refund_newest
refunds_newest_first [] = []
refunds_newest_first (r ∷ rs) = insert_refund_newest r (refunds_newest_first rs)

-- A payment's refunds, the newest first.
unfoldable pub get_refunds_by_payment_id :
    Option PaymentError → ℕ → Store → Result PaymentError (List Refund)
unfolding refunds_newest_first
get_refunds_by_payment_id fault k st = do
  check fault
  ok (refunds_newest_first (filter (λ r. r.payment_id == k && not r.deleted) st.refunds))

unfoldable pub put_refund : Refund → List Refund → List Refund
put_refund r [] = r ∷ []
put_refund r (s ∷ ss) = if s.id == r.id then r ∷ ss else s ∷ put_refund r ss

-- `Save` of a refund.
unfoldable pub update_refund : Time → Refund → Store → Store
unfolding put_refund
update_refund now r st = record st {
  refunds = put_refund (record r { updated_at = now }) st.refunds;
}
