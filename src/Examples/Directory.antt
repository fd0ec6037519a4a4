-- ===== src/Examples/Directory.antt =====
-- The venue service over a create and a delete, and its seeds on an empty table.
use booking_venue.Base.{filter, ◌+◌, ◌≡◌, refl, none, [], length, ok}
use booking_venue.Venue.Repo.{Store}
use booking_venue.Venue.Directory.Runs.{Runs}
use booking_venue.Venue.Seed.{SeedEnv, live_count, seed_venues}
use booking_venue.Venue.Seed.Fills.{seed_venues-once}
use booking_venue.Examples.Venues.{now}

abbrev seed_env : SeedEnv
seed_env = record {
  column = λ t. t;
  now = λ venue day. now;
  count_fault = none;
  faults = λ batch. none;
}

abbrev no_venues : Store
no_venues = record { venues = []; next_id = 1 }

seed_venues-once_example :
    let st' = (seed_venues seed_env no_venues).1 in
    ((seed_venues seed_env no_venues).0 ≡ ok tt)
    × (length st'.venues ≡ length no_venues.venues + 11)
    × (live_count st' ≡ 11)
    × (seed_venues seed_env st' ≡ (ok tt, st'))
unfolding filter
seed_venues-once_example =
    seed_venues-once seed_env seed_env no_venues refl refl (λ n. refl) refl tt
