-- ===== src/Reservation/Repo.antt =====
-- internal/repository/booking-repo.go and the database that it works on. gorm runs each call as one
-- SQL statement on the table of the model's type; a statement may also fail, with the error that a
-- call is given.
pub mod Rows
use booking_venue.Base.{
  ℕ, ◌+◌, Bool, false, not, ◌&&◌, Option, List, [], ◌∷◌, ◌++◌, map, ◌==◌, if◌then◌else◌, filter,
  Result, ok, err, ◌>>◌, check,
}
use booking_venue.Clock.{Time}
use booking_venue.Reservation.Model.{
  ReservationDetails, Reservation, Message, ServiceError, record_not_found,
}

-- A row of the table `reservations`, in the columns that the conflict query names.
pub record ConflictRow : Type 0 where
  pub id : ℕ
  pub venue_id : ℕ
  pub start_at : Time
  pub end_at : Time

-- `details` is the table `reservation_details`, in the order of the primary key, with the value of
-- its sequence. `reservations` is the table of that name, `none` where the database has no such
-- table with those columns. `outbox` is what was written to Kafka, the oldest message first.
pub record Store (F : Type 0) : Type 0 where
  pub details : List (ReservationDetails F)
  pub next_id : ℕ
  pub reservations : Option (List ConflictRow)
  pub outbox : List (Message F)

module _ {F : Type 0} where
  -- `WHERE id = ? AND deleted_at IS NULL LIMIT 1`
  unfoldable pub find : ℕ → List (ReservationDetails F) → Result ServiceError (ReservationDetails F)
  find k [] = err record_not_found
  find k (d ∷ ds) = if d.id == k && not d.deleted then ok d else find k ds

  unfoldable pub get_by_id :
      Option ServiceError → ℕ → Store F → Result ServiceError (ReservationDetails F)
  get_by_id fault k st = check fault >> find k st.details

  abbrev pub select_reservation : ReservationDetails F → Reservation
  select_reservation d = record { start_at = d.start_at; end_at = d.end_at; status = d.status }

  unfoldable pub get_user_reservations :
      Option ServiceError → ℕ → Store F → Result ServiceError (List Reservation)
  get_user_reservations fault user st =
      check fault
      >> ok (map select_reservation (filter (λ d. d.client_id == user && not d.deleted) st.details))

  abbrev pub is_of_venue : ℕ → ReservationDetails F → Bool
  is_of_venue venue d = d.venue_id == venue && not d.deleted

  unfoldable pub get_venue_bookings :
      Option ServiceError → ℕ → Store F → Result ServiceError (List (ReservationDetails F))
  get_venue_bookings fault venue st = check fault >> ok (filter (is_of_venue venue) st.details)

  -- `db.Save`: an update of the row with the id, or an insert where there is none.
  unfoldable pub put :
      ReservationDetails F → List (ReservationDetails F) → List (ReservationDetails F)
  put d [] = d ∷ []
  put d (r ∷ rs) = if r.id == d.id then d ∷ rs else r ∷ put d rs

  -- Save. A time column gives back the time written: so it is of whole microseconds, which is all that
  -- the column keeps.
  unfoldable pub save : ReservationDetails F → Store F → Store F
  save d st = record st { details = put d st.details }

  -- An insert appends the row, with the id that the sequence gives.
  unfoldable pub create : ReservationDetails F → Store F → ReservationDetails F × Store F
  create d st =
      let d' = record d { id = st.next_id; deleted = false } in
      (d', record st { details = st.details ++ d' ∷ []; next_id = st.next_id + 1 })
