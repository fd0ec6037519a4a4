-- ===== src/Reservation/Availability/Sweep.antt =====
-- The sweep over the sorted intervals: what its slots are, between the opening and the closing time.
use booking_venue.Base.{
  ℕ, ◌≡◌, ◌≤◌, ◌<◌, ◌⊎◌, inl, inr, true, false, List, [], ◌∷◌, arith, All, All-map, subst, sym,
  All-map₂, if◌then◌else◌, Bool-cases,
}
use booking_venue.Clock.{Time, before, after}
use booking_venue.Reservation.Model.{AvailableSlot}
use booking_venue.Reservation.Availability.{Interval, insert_by_start, sort_by_start, free_slots}

-- Starts in ascending order.
abbrev pub IsSorted : List Interval → Type 0
IsSorted [] = Unit
IsSorted (i ∷ is) = All (λ j. i.start.instant ≤ j.start.instant) is × IsSorted is

-- A slot and a busy interval, both half-open, have no instant in common.
abbrev pub Avoids : AvailableSlot → Interval → Type 0
Avoids s i = (s.end_at.instant ≤ i.start.instant) ⊎ (i.stop.instant ≤ s.start_at.instant)

module _ (P : Interval → Type 0) where
  All-insert : (i : Interval) (is : List Interval) → P i → All P is → All P (insert_by_start i is)
  unfolding insert_by_start
  All-insert i [] h a = (h, tt)
  All-insert i (j ∷ js) h a = elim (Bool-cases (before j.start i.start)) [
    | inl e ↦ rw e (a.0, All-insert i js h a.1)
    | inr e ↦ rw e (h, a)
  ]

  pub All-sort : (is : List Interval) → All P is → All P (sort_by_start is)
  unfolding sort_by_start
  All-sort [] a = tt
  All-sort (i ∷ is) a = All-insert i (sort_by_start is) a.0 (All-sort is a.1)

  All-uninsert : (i : Interval) (is : List Interval) → All P (insert_by_start i is) → P i × All P is
  unfolding insert_by_start
  All-uninsert i [] a = (a.0, tt)
  All-uninsert i (j ∷ js) a = elim (Bool-cases (before j.start i.start)) [
    | inl e ↦ let b = rw e at a in let (h, rest) = All-uninsert i js b.1 in (h, (b.0, rest))
    | inr e ↦ rw e at a
  ]

  -- The sort drops no interval.
  pub All-unsort : (is : List Interval) → All P (sort_by_start is) → All P is
  unfolding sort_by_start
  All-unsort [] a = tt
  All-unsort (i ∷ is) a =
      let (h, rest) = All-uninsert i (sort_by_start is) a in (h, All-unsort is rest)

insert-IsSorted :
    (i : Interval) (is : List Interval) → IsSorted is → IsSorted (insert_by_start i is)
unfolding insert_by_start
insert-IsSorted i [] s = (tt, tt)
insert-IsSorted i (j ∷ js) s = elim (Bool-cases (before j.start i.start)) [
  | inl e ↦ rw e (
    All-insert (λ k. j.start.instant ≤ k.start.instant) i js (ground arith) s.0,
    insert-IsSorted i js s.1,
  )
  | inr e ↦ rw e (
    (
      ground arith,
      All-map (λ k. j.start.instant ≤ k.start.instant) (λ k. i.start.instant ≤ k.start.instant) js
          (λ k h. ground arith) s.0,
    ),
    s,
  )
]

pub sort-IsSorted : (is : List Interval) → IsSorted (sort_by_start is)
unfolding sort_by_start
sort-IsSorted [] = tt
sort-IsSorted (i ∷ is) = insert-IsSorted i (sort_by_start is) (sort-IsSorted is)

abbrev pub AvoidAll : List Interval → List AvailableSlot → Type 0
AvoidAll is ss = All (λ i. All (λ s. Avoids s i) ss) is

-- A slot of positive length between two times.
abbrev pub IsWithin : Time → Time → AvailableSlot → Type 0
IsWithin from to s =
    (from.instant ≤ s.start_at.instant)
    × (s.start_at.instant < s.end_at.instant)
    × (s.end_at.instant ≤ to.instant)

-- Some slot of the list holds all of [a, b).
abbrev pub Covered : ℕ → ℕ → List AvailableSlot → Type 0
Covered a b [] = ⊥
Covered a b (s ∷ ss) = ((s.start_at.instant ≤ a) × (b ≤ s.end_at.instant)) ⊎ Covered a b ss

-- The half-open interval [a, b) has no instant in common with a busy interval.
abbrev pub IsFree : ℕ → ℕ → Interval → Type 0
IsFree a b i = (b ≤ i.start.instant) ⊎ (i.stop.instant ≤ a)

module _ (closing : Time) where
  later :
      (p q : Time) (ss : List AvailableSlot)
      → q.instant ≤ p.instant
      → All (IsWithin p closing) ss
      → All (IsWithin q closing) ss
  later p q ss h = All-map (IsWithin p closing) (IsWithin q closing) ss (λ s w. omega arith)

  pub free_slots-IsWithin :
      (prev : Time) (is : List Interval)
      → All (λ i. i.start.instant ≤ closing.instant) is
      → All (IsWithin prev closing) (free_slots prev closing is)
  unfolding free_slots
  free_slots-IsWithin prev [] h = ground arith
  free_slots-IsWithin prev (i ∷ is) h =
      let next : Time = if after i.stop prev then i.stop else prev in
      let rest =
        later next prev (free_slots next closing is) (ground arith)
          (free_slots-IsWithin next is h.1) in
      elim (Bool-cases (after i.start prev)) [
        | inl e ↦ rw e ((omega arith, ground arith, h.0), rest)
        | inr e ↦ rw e rest
      ]

  Avoids-from :
      (p : Time) (i : Interval) (ss : List AvailableSlot)
      → i.stop.instant ≤ p.instant
      → All (IsWithin p closing) ss
      → All (λ s. Avoids s i) ss
  Avoids-from p i ss h =
      All-map (IsWithin p closing) (λ s. Avoids s i) ss (λ s w. inr (omega arith))

  gap_step :
      (prev : Time) (i : Interval) (is : List Interval)
      → after i.start prev ≡ true
      → free_slots prev closing (i ∷ is)
        ≡ record { start_at = prev; end_at = i.start }
          ∷ free_slots (if after i.stop prev then i.stop else prev) closing is
  unfolding free_slots
  gap_step prev i is e = rw e

  no_gap_step :
      (prev : Time) (i : Interval) (is : List Interval)
      → after i.start prev ≡ false
      → free_slots prev closing (i ∷ is)
        ≡ free_slots (if after i.stop prev then i.stop else prev) closing is
  unfolding free_slots
  no_gap_step prev i is e = rw e

  -- The slots of a sorted list have no instant in common with any of its intervals.
  pub free_slots-Avoids :
      (prev : Time) (is : List Interval)
      → All (λ i. i.start.instant ≤ closing.instant) is
      → IsSorted is
      → AvoidAll is (free_slots prev closing is)
  free_slots-Avoids prev [] h sorted = tt
  free_slots-Avoids prev (i ∷ is) h sorted =
      let next : Time = if after i.stop prev then i.stop else prev in
      let ss = free_slots next closing is in
      let here : All (λ s. Avoids s i) ss =
        Avoids-from next i ss (ground arith) (free_slots-IsWithin next is h.1) in
      let rest = free_slots-Avoids next is h.1 sorted.1 in
      elim (Bool-cases (after i.start prev)) [
        | inl e ↦ subst (AvoidAll (i ∷ is)) (sym (gap_step prev i is e)) (
          (inl (omega arith), here),
          All-map₂ (λ j. i.start.instant ≤ j.start.instant) (λ j. All (λ s. Avoids s j) ss)
              (λ j. All (λ s. Avoids s j) (record { start_at = prev; end_at = i.start } ∷ ss)) is
              (λ j le a. (inl le, a)) sorted.0 rest,
        )
        | inr e ↦ subst (AvoidAll (i ∷ is)) (sym (no_gap_step prev i is e)) (here, rest)
      ]

  -- Whatever time between `prev` and the closing is free of every interval lies in one slot.
  pub free_slots-Covered :
      (prev : Time) (is : List Interval) (a b : ℕ)
      → prev.instant ≤ a
      → a < b
      → b ≤ closing.instant
      → All (IsFree a b) is
      → Covered a b (free_slots prev closing is)
  unfolding free_slots
  free_slots-Covered prev [] a b h l c f = ground arith
  free_slots-Covered prev (i ∷ is) a b h l c f =
      let next : Time = if after i.stop prev then i.stop else prev in
      elim f.0 [
        | inl left ↦ let e : after i.start prev ≡ true = ground arith in rw e (inl (h, left))
        | inr right ↦
            let rest = free_slots-Covered next is a b (ground arith) l c f.1 in
            elim (Bool-cases (after i.start prev)) [ inl e ↦ rw e (inr rest) | inr e ↦ rw e rest ]
      ]
