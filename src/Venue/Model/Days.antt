-- ===== src/Venue/Model/Days.antt =====
-- The check of a venue against what a week's schedule has to be.
use booking_venue.Base.{
  ℕ, suc, ◌≡◌, refl, ◌<◌, ◌↔◌, true, false, none, some, List, [], ◌∷◌, ok, All, arith, Bool-cases,
  Option-cases, ◌⊎◌, inl, inr, >>=-eq-ok,
}
use booking_venue.Clock.{Time}
use booking_venue.Venue.Model.{
  is_valid, DaySchedule, Venue, validate_day, validate_days, validate_venue, days_of,
}

-- Either the day is enabled and opens before it closes, or it is disabled and has no times.
abbrev pub IsDay : DaySchedule → Type 0
IsDay d =
    ((d.enabled ≡ true)
      × ((s : Time) × (e : Time) × (d.start_time ≡ some s)
          × (d.end_time ≡ some e)
          × (s.instant < e.instant)))
    ⊎ ((d.enabled ≡ false) × (d.start_time ≡ none) × (d.end_time ≡ none))

pub validate_day_iff : (n : ℕ) (d : DaySchedule) → (validate_day n d ≡ ok tt) ↔ IsDay d
unfolding validate_day
validate_day_iff n d = elim (Bool-cases d.enabled) [
  | inl on ↦ elim (Option-cases d.start_time) [
    | inl ns ↦ rw (on, ns) (λ h. cc h, λ h. ground (arith, on, ns, h))
    | inr (s, hs) ↦ elim (Option-cases d.end_time) [
      | inl ne ↦ rw (on, hs, ne) (λ h. cc h, λ h. ground (arith, on, ne, h))
      | inr (e, he) ↦ ground (arith, on, hs, he)
    ]
  ]
  | inr off ↦ elim (Option-cases d.start_time) [
    | inl ns ↦ ground (arith, off, ns)
    | inr (s, hs) ↦ rw (off, hs) (λ h. cc h, λ h. ground (arith, off, hs, h))
  ]
]

validate_days_iff : (n : ℕ) (ds : List DaySchedule) → (validate_days n ds ≡ ok tt) ↔ All IsDay ds
unfolding validate_days
validate_days_iff n [] = (λ h. tt, λ h. refl)
validate_days_iff n (d ∷ ds) =
    let head = validate_day_iff n d in
    let rest = validate_days_iff (suc n) ds in
    (
      λ h. let (u, hd, hr) = >>=-eq-ok (validate_day n d) _ h in (head.0 hd, rest.0 hr),
      λ a. rw (head.1 a.0) (rest.1 a.1),
    )

-- The hook that runs before every insert and update of a venue accepts it exactly when its type is
-- one of the five and each day of its week is either enabled with an opening time before its closing
-- time, or disabled without times.
pub validate_venue_iff :
    (v : Venue)
    → (validate_venue v ≡ ok tt) ↔ ((is_valid v.venue_type ≡ true) × All IsDay (days_of v.weekdays))
unfolding validate_venue
validate_venue_iff v =
    let week = validate_days_iff 0 (days_of v.weekdays) in
    elim (Bool-cases (is_valid v.venue_type)) [
      | inl good ↦ rw good (λ h. (refl, week.0 h), λ h. week.1 h.1)
      | inr bad ↦ rw bad (λ h. cc h, λ h. cc h.0)
    ]
