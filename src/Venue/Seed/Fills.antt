-- ===== src/Venue/Seed/Fills.antt =====
-- The seeds fill an empty table once.
use booking_venue.Base.{
  ℕ, suc, ◌+◌, ◌<◌, ◌≡◌, refl, ap, ◌∙◌, inl, inr, Bool, false, not, ◌||◌, Option, none, List, [],
  ◌∷◌, ◌++◌, filter, length, All, All-append, All-map, ok, arith, Bool-cases, Result-cases,
}
use booking_venue.Clock.{Time}
use booking_venue.Venue.Model.{Venue, VenueError}
use booking_venue.Venue.Repo.{Store, create_venue, has_id, is_negative, new_venue}
use booking_venue.Venue.Service.Creating.{stored, create_venue-ok}
use booking_venue.Venue.Seed.{
  seeds, validate_batch, insert_rows, create_batch, batches_of, create_batches, SeedEnv, live_count,
  seed_venues,
}
use booking_venue.Venue.Seed.Valid.{IsSeed, seeds-IsSeed}

-- The ids of the table are below the sequence.
abbrev pub IsBelow : Store → Type 0
IsBelow st = All (λ v. v.id < st.next_id) st.venues

unused : (n : ℕ) (vs : List Venue) → All (λ v. v.id < n) vs → has_id n vs ≡ false
unfolding has_id
unused n [] a = refl
unused n (v ∷ vs) a = let first = a.0 in ground (arith, unused n vs a.1)

length-append_one : (vs : List Venue) (v : Venue) → length (vs ++ v ∷ []) ≡ length vs + 1
length-append_one [] v = refl
length-append_one (w ∷ vs) v = omega (arith, length-append_one vs v)

abbrev is_live : Venue → Bool
is_live v = not v.deleted

live-append_one :
    (vs : List Venue) (v : Venue)
    → v.deleted ≡ false
    → length (filter is_live (vs ++ v ∷ [])) ≡ length (filter is_live vs) + 1
unfolding filter
live-append_one [] v h = rw h refl
live-append_one (w ∷ vs) v h = ground (arith, live-append_one vs v h)

-- `n` rows have been added to the table.
abbrev IsFilled : ℕ → Store → Store → Type 0
IsFilled n st st' =
    IsBelow st' × (length st'.venues ≡ length st.venues + n) × (live_count st' ≡ live_count st + n)

inserted :
    (column : Time → Time) (v : Venue) (st : Store)
    → IsSeed v
    → IsBelow st
    → (v' : Venue) × ((create_venue column none v st).0 ≡ ok v')
unfolding create_venue new_venue
inserted column v st (valid, new, price) below =
    let free = unused st.next_id st.venues below in
    elim (Result-cases (create_venue column none v st).0) [
      | inl (e, bad) ↦ cc (rw (valid, new, price, free, create_venue) at bad)
      | inr good ↦ good
    ]

next_id-after :
    (column : Time → Time) (v : Venue) (st : Store)
    → IsSeed v
    → (create_venue column none v st).1.next_id ≡ st.next_id + 1
unfolding create_venue
next_id-after column v st (valid, new, price) =
    elim (Bool-cases (is_negative v.hour_price || has_id (new_venue st.next_id v).id st.venues)) [
      | inl taken ↦ rw (valid, taken, create_venue, new) refl
      | inr free ↦ rw (valid, free, create_venue, new) refl
    ]

new_id : (n : ℕ) (v : Venue) → v.id ≡ 0 → (new_venue n v).id ≡ n
unfolding new_venue
new_id n v new = rw new refl

not_deleted : (n : ℕ) (v : Venue) → (new_venue n v).deleted ≡ false
unfolding new_venue
not_deleted n v = refl

insert-fills :
    (column : Time → Time) (v : Venue) (st : Store)
    → IsSeed v
    → IsBelow st
    → IsFilled 1 st (create_venue column none v st).1
insert-fills column v st seed below =
    let (v', done) = inserted column v st seed below in
    let after = (create_venue column none v st).1 in
    let next = next_id-after column v st seed in
    let (_, _, same, table) =
      create_venue-ok column none v v' st after (ap (λ r. (r, after)) done) in
    let row = stored column v' in
    let id : row.id ≡ st.next_id = ap (λ (w : Venue). w.id) same ∙ new_id st.next_id v seed.1 in
    let live : row.deleted ≡ false =
      ap (λ (w : Venue). w.deleted) same ∙ not_deleted st.next_id v in
    rw (table, next)
      (
        All-append (λ w. w.id < st.next_id + 1) st.venues (row ∷ [])
            (All-map _ _ st.venues (λ x l. omega (arith, l)) below) (omega (arith, id), tt),
        length-append_one st.venues row,
        live-append_one st.venues row live,
      )

-- One filling after another.
IsFilled-then :
    (m n k : ℕ) (st mid st' : Store)
    → k ≡ m + n
    → IsFilled m st mid
    → IsFilled n mid st'
    → IsFilled k st st'
IsFilled-then m n k st mid st' sum (_, a, c) (below, b, d) =
    (below, omega (arith, sum, a, b), omega (arith, sum, c, d))

insert_rows-fills :
    (column : Time → Time) (vs : List Venue) (st : Store)
    → All IsSeed vs
    → IsBelow st
    → ((insert_rows column vs st).0 ≡ ok tt) × IsFilled (length vs) st (insert_rows column vs st).1
unfolding insert_rows
insert_rows-fills column [] st a below = (refl, (below, omega arith, omega arith))
insert_rows-fills column (v ∷ vs) st a below =
    let (v', done) = inserted column v st a.0 below in
    let one = insert-fills column v st a.0 below in
    let mid = (create_venue column none v st).1 in
    let (fine, more) = insert_rows-fills column vs mid a.1 one.0 in
    rw (done, insert_rows)
      (
        fine,
        IsFilled-then 1 (length vs) (suc (length vs)) st mid (insert_rows column vs mid).1
            (omega arith) one more,
      )

validate_batch-ok : (vs : List Venue) → All IsSeed vs → validate_batch vs ≡ ok tt
unfolding validate_batch
validate_batch-ok [] a = refl
validate_batch-ok (v ∷ vs) a = rw (a.0.0) (validate_batch-ok vs a.1)

create_batch-fills :
    (column : Time → Time) (fault : Option VenueError) (vs : List Venue) (st : Store)
    → fault ≡ none
    → All IsSeed vs
    → IsBelow st
    → ((create_batch column fault vs st).0 ≡ ok tt)
      × IsFilled (length vs) st (create_batch column fault vs st).1
unfolding create_batch
create_batch-fills column fault vs st free a below =
    let (fine, filled) = insert_rows-fills column vs st a below in
    rw (free, validate_batch-ok vs a, fine, create_batch) (refl, filled)

abbrev total : List (List Venue) → ℕ
total [] = 0
total (b ∷ bs) = length b + total bs

create_batches-fills :
    (column : Time → Time) (faults : ℕ → Option VenueError) (i : ℕ) (bs : List (List Venue))
    (st : Store)
    → ((n : ℕ) → faults n ≡ none)
    → All (λ b. All IsSeed b) bs
    → IsBelow st
    → ((create_batches column faults i bs st).0 ≡ ok tt)
      × IsFilled (total bs) st (create_batches column faults i bs st).1
unfolding create_batches
create_batches-fills column faults i [] st ready a below = (refl, (below, omega arith, omega arith))
create_batches-fills column faults i (b ∷ bs) st ready a below =
    let (fine, one) = create_batch-fills column (faults i) b st (ready i) a.0 below in
    let mid = (create_batch column (faults i) b st).1 in
    let (rest, more) = create_batches-fills column faults (suc i) bs mid ready a.1 one.0 in
    rw (fine, create_batches)
      (
        rest,
        IsFilled-then (length b) (total bs) (length b + total bs) st mid
            (create_batches column faults (suc i) bs mid).1 refl one more,
      )

batches-IsSeed : (now : ℕ → ℕ → Time) → All (λ b. All IsSeed b) (batches_of (seeds now))
unfolding batches_of seeds
batches-IsSeed now =
    let (a, (b, (c, (d, (e, (f, (g, (h, (i, (j, (k, _))))))))))) = seeds-IsSeed now in
    ((a, (b, (c, (d, (e, tt))))), ((f, (g, (h, (i, (j, tt))))), ((k, tt), tt)))

total-seeds : (now : ℕ → ℕ → Time) → total (batches_of (seeds now)) ≡ 11
unfolding batches_of seeds
total-seeds now = refl

again :
    (env : SeedEnv) (st : Store)
    → env.count_fault ≡ none
    → live_count st ≡ 11
    → seed_venues env st ≡ (ok tt, st)
unfolding seed_venues
again env st counts full = rw (counts, seed_venues, full) refl

-- SeedVenues on a table without live venues, on a database without faults, stores eleven live venues
-- beside the rows that are there, and a second run, in any environment in which the count succeeds,
-- changes nothing.
pub seed_venues-once :
    (env env' : SeedEnv) (st : Store)
    → env.count_fault ≡ none
    → env'.count_fault ≡ none
    → ((n : ℕ) → env.faults n ≡ none)
    → live_count st ≡ 0
    → IsBelow st
    → let st' = (seed_venues env st).1 in
      ((seed_venues env st).0 ≡ ok tt)
      × (length st'.venues ≡ length st.venues + 11)
      × (live_count st' ≡ 11)
      × (seed_venues env' st' ≡ (ok tt, st'))
unfolding seed_venues
seed_venues-once env env' st counts counts' ready empty below =
    let bs = batches_of (seeds env.now) in
    let (fine, (_, rows, live)) =
      create_batches-fills env.column env.faults 0 bs st ready (batches-IsSeed env.now) below in
    let st' = (create_batches env.column env.faults 0 bs st).1 in
    let eleven : total bs ≡ 11 = total-seeds env.now in
    let full : live_count st' ≡ 11 = omega (arith, live, eleven, empty) in
    let run : seed_venues env st ≡ create_batches env.column env.faults 0 bs st =
      rw (counts, seed_venues, empty) refl in
    rw run (fine, omega (arith, rows, eleven), full, again env' st' counts' full)
