-- ===== src/Reservation/Availability/Slots.antt =====
-- The slots of a day against the bookings of the venue.
use booking_venue.Base.{
  ℕ, ◌+◌, ◌≡◌, ◌≤◌, ◌⊎◌, refl, inl, inr, true, false, List, [], ◌∷◌, filter, arith, All, All-map₂,
  All-filter, All-swap, Bool-cases,
}
use booking_venue.Clock.{Time, hour}
use booking_venue.Reservation.Model.{is_cancelled, ReservationDetails, AvailableSlot}
use booking_venue.Reservation.Schedule.{same_date}
use booking_venue.Reservation.Availability.{
  Interval, is_relevant, at_least, at_most, busy_intervals, sort_by_start, free_slots, is_long,
  slots_between,
}
use booking_venue.Reservation.Availability.Sweep.{
  Avoids, IsWithin, IsFree, Covered, All-sort, All-unsort, sort-IsSorted, free_slots-IsWithin,
  free_slots-Avoids, free_slots-Covered,
}

-- The branch for a day with no interval gives what the filter would give.
pub slots_between-filter :
    (opening closing : Time) (is : List Interval)
    → slots_between opening closing is ≡ filter is_long (free_slots opening closing is)
unfolding slots_between filter free_slots
slots_between-filter opening closing [] = ground arith
slots_between-filter opening closing (i ∷ is) = refl

abbrev pub IsLong : AvailableSlot → Type 0
IsLong s = s.start_at.instant + hour ≤ s.end_at.instant

Covered-filter :
    (a b : ℕ) (ss : List AvailableSlot)
    → a + hour ≤ b
    → Covered a b ss
    → Covered a b (filter is_long ss)
unfolding filter
Covered-filter a b [] l c = c
Covered-filter a b (s ∷ ss) l (inr rest) = elim (Bool-cases (is_long s)) [
  | inl e ↦ rw e (inr (Covered-filter a b ss l rest))
  | inr e ↦ rw e (Covered-filter a b ss l rest)
]
Covered-filter a b (s ∷ ss) l (inl here) =
    let e : is_long s ≡ true = ground arith in rw e (inl here)

-- A booking that the answer must keep clear of: live in the loop's eyes, and on the date.
abbrev pub Counts : {F : Type 0} → Time → ReservationDetails F → Type 0
Counts date b = (is_cancelled b.status ≡ false) × (same_date b.start_at date ≡ true)

-- A slot and a booking have no instant in common.
abbrev pub Clear : {F : Type 0} → AvailableSlot → ReservationDetails F → Type 0
Clear s b = (s.end_at.instant ≤ b.start_at.instant) ⊎ (b.end_at.instant ≤ s.start_at.instant)

-- [a, b) and a booking have no instant in common.
abbrev pub Unbooked : {F : Type 0} → ℕ → ℕ → ReservationDetails F → Type 0
Unbooked a b d = (b ≤ d.start_at.instant) ⊎ (d.end_at.instant ≤ a)

module _ {F : Type 0} (date opening closing : Time) where
  -- What the loop appends for a booking.
  abbrev clipped : ReservationDetails F → Interval
  clipped b = record { start = at_least b.start_at opening; stop = at_most b.end_at closing }

  relevant-start :
      (b : ReservationDetails F)
      → opening.instant ≤ closing.instant
      → is_relevant date opening closing b ≡ true
      → (clipped b).start.instant ≤ closing.instant
  unfolding is_relevant
  relevant-start b h e = ground arith

  relevant-Counts :
      (b : ReservationDetails F) → is_relevant date opening closing b ≡ true → Counts date b
  unfolding is_relevant
  relevant-Counts b e = ground arith

  relevant-Clear :
      (s : AvailableSlot) (b : ReservationDetails F)
      → IsWithin opening closing s
      → Avoids s (clipped b)
      → Clear s b
  relevant-Clear s b w a = ground arith

  irrelevant-Clear :
      (s : AvailableSlot) (b : ReservationDetails F)
      → IsWithin opening closing s
      → is_relevant date opening closing b ≡ false
      → Counts date b
      → Clear s b
  unfolding is_relevant
  irrelevant-Clear s b w e c = ground arith

  busy-start :
      (bs : List (ReservationDetails F))
      → opening.instant ≤ closing.instant
      → All (λ i. i.start.instant ≤ closing.instant) (busy_intervals date opening closing bs)
  unfolding busy_intervals
  busy-start [] h = tt
  busy-start (b ∷ bs) h = elim (Bool-cases (is_relevant date opening closing b)) [
    | inl e ↦ rw e (relevant-start b h e, busy-start bs h)
    | inr e ↦ rw e (busy-start bs h)
  ]

  -- A slot within the day that avoids every interval is clear of every booking that counts.
  pub busy-Clear :
      (s : AvailableSlot) (bs : List (ReservationDetails F))
      → IsWithin opening closing s
      → All (Avoids s) (busy_intervals date opening closing bs)
      → All (λ b. Counts date b → Clear s b) bs
  unfolding busy_intervals
  busy-Clear s [] w a = tt
  busy-Clear s (b ∷ bs) w a = elim (Bool-cases (is_relevant date opening closing b)) [
    | inl e ↦ let k = rw e at a in (λ _. relevant-Clear s b w k.0, busy-Clear s bs w k.1)
    | inr e ↦ (irrelevant-Clear s b w e, busy-Clear s bs w (rw e at a))
  ]

  pub busy-IsFree :
      (x y : ℕ) (bs : List (ReservationDetails F))
      → All (λ b. Counts date b → Unbooked x y b) bs
      → All (IsFree x y) (busy_intervals date opening closing bs)
  unfolding busy_intervals
  busy-IsFree x y [] a = tt
  busy-IsFree x y (b ∷ bs) a = elim (Bool-cases (is_relevant date opening closing b)) [
    | inl e ↦
        let free = a.0 (relevant-Counts b e) in rw e (ground (arith, free), busy-IsFree x y bs a.1)
    | inr e ↦ rw e (busy-IsFree x y bs a.1)
  ]

  abbrev pub answer : List (ReservationDetails F) → List AvailableSlot
  answer bs = slots_between opening closing (sort_by_start (busy_intervals date opening closing bs))

  -- What a slot of the answer is: within the working time, an hour long or more, and clear of every
  -- booking that counts.
  abbrev pub IsGood : List (ReservationDetails F) → AvailableSlot → Type 0
  IsGood bs s = IsWithin opening closing s × IsLong s × All (λ b. Counts date b → Clear s b) bs

  IsGood-of_long :
      (bs : List (ReservationDetails F)) (s : AvailableSlot)
      → IsWithin opening closing s
      → All (Avoids s) (sort_by_start (busy_intervals date opening closing bs))
      → is_long s ≡ true
      → IsGood bs s
  IsGood-of_long bs s w a l = (
    w,
    ground arith,
    busy-Clear s bs w (All-unsort (Avoids s) (busy_intervals date opening closing bs) a),
  )

  pub answer-IsGood :
      (bs : List (ReservationDetails F))
      → opening.instant ≤ closing.instant
      → All (IsGood bs) (answer bs)
  answer-IsGood bs h =
      let is = sort_by_start (busy_intervals date opening closing bs) in
      let ss = free_slots opening closing is in
      let starts =
        All-sort (λ i. i.start.instant ≤ closing.instant) (busy_intervals date opening closing bs)
          (busy-start bs h) in
      let avoid =
        free_slots-Avoids closing opening is starts
          (sort-IsSorted (busy_intervals date opening closing bs)) in
      rw (slots_between-filter opening closing is) (
        All-filter (IsGood bs) is_long ss (
          All-map₂ (IsWithin opening closing) (λ s. All (Avoids s) is)
            (λ s. is_long s ≡ true → IsGood bs s) ss (λ s w a. IsGood-of_long bs s w a)
            (free_slots-IsWithin closing opening is starts) (All-swap Avoids ss is avoid)))

  -- Whatever hour or more of the working time is free of every booking that counts lies in one slot.
  pub answer-Covered :
      (x y : ℕ) (bs : List (ReservationDetails F))
      → opening.instant ≤ x
      → x + hour ≤ y
      → y ≤ closing.instant
      → All (λ b. Counts date b → Unbooked x y b) bs
      → Covered x y (answer bs)
  answer-Covered x y bs h l c free =
      let is = sort_by_start (busy_intervals date opening closing bs) in
      rw (slots_between-filter opening closing is) (
        Covered-filter x y (free_slots opening closing is) l (
          free_slots-Covered closing opening is x y h (omega arith) c (
            All-sort (IsFree x y) (busy_intervals date opening closing bs)
              (busy-IsFree x y bs free))))
