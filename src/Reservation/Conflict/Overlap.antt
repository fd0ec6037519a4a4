-- ===== src/Reservation/Conflict/Overlap.antt =====
-- The SQL condition of the conflict query against the overlap of two intervals.
use booking_venue.Base.{
  ℕ, ◌≡◌, true, false, Option, none, some, List, ◌<◌, ◌↔◌, ok, Bool-cases, inl, inr, arith, All,
  All-map₂, fail_if_iff, filter-none,
}
use booking_venue.Clock.{Time}
use booking_venue.Reservation.Model.{booking_conflict}
use booking_venue.Reservation.Repo.{ConflictRow}
use booking_venue.Reservation.Conflict.{
  times_conflict, is_other, in_conflict, check_booking_conflicts,
}

-- Two half-open intervals of instants have a common point.
abbrev pub Overlaps : Time → Time → Time → Time → Type 0
Overlaps a b s e = (a.instant < e.instant) × (s.instant < b.instant)

-- For intervals that are not empty, the three alternatives of the SQL condition hold exactly when
-- the row's interval and the requested one overlap.
pub times_conflict-iff_Overlaps :
    (a b s e : Time)
    → a.instant < b.instant
    → s.instant < e.instant
    → (times_conflict a b s e ≡ true) ↔ Overlaps a b s e
unfolding times_conflict
times_conflict-iff_Overlaps a b s e h k = ground arith

-- What a row must satisfy so that a booking of the venue at [s, e) does not clash with it.
abbrev pub IsClear : ℕ → Time → Time → Option ℕ → ConflictRow → Type 0
IsClear venue s e exclude row =
    row.venue_id ≡ venue → is_other exclude row.id ≡ true → ¬ (Overlaps row.start_at row.end_at s e)

abbrev pub IsProper : ConflictRow → Type 0
IsProper row = row.start_at.instant < row.end_at.instant

-- For one row, passing the query's test is being clear of the interval.
IsClear-iff-in_conflict :
    (venue : ℕ) (s e : Time) (exclude : Option ℕ) (row : ConflictRow)
    → s.instant < e.instant
    → IsProper row
    → (in_conflict venue s e exclude row ≡ false) ↔ IsClear venue s e exclude row
unfolding in_conflict
IsClear-iff-in_conflict venue s e exclude row h p = elim (Bool-cases (is_other exclude row.id)) [
  | inl o ↦ rw o (ground arith)
  | inr o ↦ rw o (ground arith)
]

-- For an interval that is not empty, and a table whose rows all end after they start, the check,
-- on a database without faults, passes exactly when every row is clear of the interval: it is the
-- excluded one, or of another venue, or does not overlap.
pub check_booking_conflicts-iff_IsClear :
    (rows : List ConflictRow) (venue : ℕ) (s e : Time) (exclude : Option ℕ)
    → s.instant < e.instant
    → All IsProper rows
    → (check_booking_conflicts none (some rows) venue s e exclude ≡ ok tt)
      ↔ All (IsClear venue s e exclude) rows
unfolding check_booking_conflicts
check_booking_conflicts-iff_IsClear rows venue s e exclude h p = (
  λ passed.
      All-map₂ IsProper (λ row. in_conflict venue s e exclude row ≡ false)
        (IsClear venue s e exclude) rows
        (λ row proper. (IsClear-iff-in_conflict venue s e exclude row h proper).0) p
        ((filter-none (in_conflict venue s e exclude) rows).0
          ((fail_if_iff _ booking_conflict).0 passed)),
  λ clear. (fail_if_iff _ booking_conflict).1 (
      (filter-none (in_conflict venue s e exclude) rows).1 (
        All-map₂ IsProper (IsClear venue s e exclude)
          (λ row. in_conflict venue s e exclude row ≡ false) rows
          (λ row proper. (IsClear-iff-in_conflict venue s e exclude row h proper).1) p clear)),
)
