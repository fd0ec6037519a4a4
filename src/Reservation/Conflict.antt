-- ===== src/Reservation/Conflict.antt =====
-- `checkBookingConflictsTx` of internal/service/booking-service.go: the SQL condition, the count over
-- the table `reservations`, and the error.
pub mod Overlap
use booking_venue.Base.{
  ℕ, zero, suc, Bool, true, not, ◌&&◌, ◌||◌, Option, none, some, List, ltb, leb, ◌==◌, length,
  filter, Result, ok, err, ◌>>=◌, ◌>>◌, check, fail_if,
}
use booking_venue.Clock.{Time}
use booking_venue.Reservation.Model.{ServiceError, database_error, booking_conflict}
use booking_venue.Reservation.Repo.{ConflictRow}

-- (start_at < E AND end_at > E) OR (start_at < S AND end_at > S) OR (start_at >= S AND end_at <= E)
unfoldable pub times_conflict : Time → Time → Time → Time → Bool
times_conflict start_at end_at s e =
    ltb start_at.instant e.instant && ltb e.instant end_at.instant
    || ltb start_at.instant s.instant && ltb s.instant end_at.instant
    || leb s.instant start_at.instant && leb end_at.instant e.instant

-- `id <> ?`, where an id is excluded
abbrev pub is_other : Option ℕ → ℕ → Bool
is_other none k = true
is_other (some x) k = not (k == x)

unfoldable pub in_conflict : ℕ → Time → Time → Option ℕ → ConflictRow → Bool
unfolding times_conflict
in_conflict venue s e exclude row =
    row.venue_id == venue && is_other exclude row.id && times_conflict row.start_at row.end_at s e

-- The rows, or the error of a query on a table that is not there.
abbrev pub rows_of : Option (List ConflictRow) → Result ServiceError (List ConflictRow)
rows_of none = err database_error
rows_of (some rows) = ok rows

unfoldable pub check_booking_conflicts :
    Option ServiceError
    → Option (List ConflictRow)
    → ℕ
    → Time
    → Time
    → Option ℕ
    → Result ServiceError (Unit {0})
check_booking_conflicts fault table venue s e exclude = do
  check fault
  rows ← rows_of table
  fail_if (ltb 0 (length (filter (in_conflict venue s e exclude) rows))) booking_conflict
