-- ===== src/Venue/Seed/Valid.antt =====
-- The venues of the seed pass the check that runs before a write.
use booking_venue.Base.{
  ℕ, ◌+◌, ◌*◌, ◌<◌, ◌≡◌, refl, inl, inr, Bool, true, false, List, [], ltb, ltb→lt, All, ok, arith,
}
use booking_venue.Clock.{Time, utc, date_of}
use booking_venue.Clock.HourMinute.{Text}
use booking_venue.Venue.Model.{VenueType, is_valid, Venue, validate_venue, days_of}
use booking_venue.Venue.Model.Days.{IsDay, validate_venue_iff}
use booking_venue.Venue.Repo.{is_negative}
use booking_venue.Venue.Seed.{
  but_sunday, but_weekend, create_day_schedule, enabled_day, create_weekdays, seed_venue, seeds,
}

date_of-lt :
    (now : Time) (sh sm eh em : ℕ)
    → 60 * sh + sm < 60 * eh + em
    → (date_of now sh sm utc).instant < (date_of now eh em utc).instant
unfolding date_of
date_of-lt now sh sm eh em h = omega (arith, h)

create_day_schedule-IsDay :
    (now : Time) (enabled : Bool) (sh sm eh em : ℕ)
    → 60 * sh + sm < 60 * eh + em
    → IsDay (create_day_schedule now enabled sh sm eh em)
unfolding create_day_schedule
create_day_schedule-IsDay now true sh sm eh em h =
    inl (refl, (_, _, refl, refl, date_of-lt now sh sm eh em h))
create_day_schedule-IsDay now false sh sm eh em h = inr (refl, refl, refl)

-- The week of one opening and one closing time is a valid one, whichever days are closed.
create_weekdays-IsDay :
    (now : ℕ → Time) (sh sm eh em : ℕ) (days : List Bool)
    → 60 * sh + sm < 60 * eh + em
    → All IsDay (days_of (create_weekdays now sh sm eh em days))
unfolding create_weekdays
create_weekdays-IsDay now sh sm eh em days h =
    (day 0, (day 1, (day 2, (day 3, (day 4, (day 5, (day 6, tt)))))))
  where
    day : (n : ℕ) → IsDay (create_day_schedule (now n) (enabled_day n days) sh sm eh em)
    day n = create_day_schedule-IsDay (now n) (enabled_day n days) sh sm eh em h

-- What the insert asks of a row.
abbrev pub IsSeed : Venue → Type 0
IsSeed v = (validate_venue v ≡ ok tt) × (v.id ≡ 0) × (is_negative v.hour_price ≡ false)

seed_venue-IsSeed :
    (t : VenueType) (owner : ℕ) (active : Bool) (price : ℕ) (district : Text) (now : ℕ → Time)
    (sh sm eh em : ℕ) (days : List Bool)
    → is_valid t ≡ true
    → ltb (60 * sh + sm) (60 * eh + em) ≡ true
    → IsSeed (seed_venue t owner active price district (create_weekdays now sh sm eh em days))
unfolding seed_venue
seed_venue-IsSeed t owner active price district now sh sm eh em days good h =
    let v = seed_venue t owner active price district (create_weekdays now sh sm eh em days) in
    (
      (validate_venue_iff v).1 (good, create_weekdays-IsDay now sh sm eh em days (ltb→lt _ _ h)),
      refl,
      refl,
    )

pub seeds-IsSeed : (now : ℕ → ℕ → Time) → All IsSeed (seeds now)
unfolding seeds is_valid
seeds-IsSeed now = (
  seed_venue-IsSeed _ _ _ _ _ (now 0) 8 0 22 0 [] refl refl,
  (
    seed_venue-IsSeed _ _ _ _ _ (now 1) 9 0 21 0 but_sunday refl refl,
    (
      seed_venue-IsSeed _ _ _ _ _ (now 2) 7 0 23 0 [] refl refl,
      (
        seed_venue-IsSeed _ _ _ _ _ (now 3) 10 0 22 0 [] refl refl,
        (
          seed_venue-IsSeed _ _ _ _ _ (now 4) 8 30 20 30 but_weekend refl refl,
          (
            seed_venue-IsSeed _ _ _ _ _ (now 5) 9 0 21 0 [] refl refl,
            (
              seed_venue-IsSeed _ _ _ _ _ (now 6) 8 0 22 0 [] refl refl,
              (
                seed_venue-IsSeed _ _ _ _ _ (now 7) 6 0 23 59 [] refl refl,
                (
                  seed_venue-IsSeed _ _ _ _ _ (now 8) 7 0 23 0 but_sunday refl refl,
                  (
                    seed_venue-IsSeed _ _ _ _ _ (now 9) 8 0 20 0 [] refl refl,
                    (seed_venue-IsSeed _ _ _ _ _ (now 10) 9 0 19 0 but_weekend refl refl, tt),
                  ),
                ),
              ),
            ),
          ),
        ),
      ),
    ),
  ),
)
