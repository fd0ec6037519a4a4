-- ===== src/Venue/Service/Creating.antt =====
-- What a create stores.
use booking_venue.Base.{
  ℕ, ◌≡◌, refl, Bool, true, false, ◌||◌, Option, none, List, [], ◌∷◌, ◌++◌, ok, arith, All,
  Bool-cases, Option-cases, Result-cases, inl, inr, ap, sym, subst, ◌∙◌, map,
}
use booking_venue.Clock.{Time}
use booking_venue.Venue.Model.{DaySchedule, Weekdays, Venue, VenueError, validate_venue, days_of}
use booking_venue.Venue.Model.Days.{IsDay, validate_venue_iff}
use booking_venue.Venue.Repo.{
  Store, create_venue, week_columns, week_default, day_default, is_negative, new_venue, has_id,
  find_venue,
}
use booking_venue.Venue.Repo.Rows.{first_venue-append_new, first_venue-append_ne}
use booking_venue.Venue.Service.{Db, get_venue, create}
use booking_venue.Venue.Service.Effects.{Others}

-- The row of an insert that leaves `v` in the caller's variable.
abbrev pub stored : (Time → Time) → Venue → Venue
stored column v = record v { weekdays = week_columns column v.weekdays }

or_right : (a b : Bool) → (a || b) ≡ false → b ≡ false
or_right true b h = cc
or_right false b h = h

pub create_venue-ok :
    (column : Time → Time) (fault : Option VenueError) (v v' : Venue) (st st' : Store)
    → create_venue column fault v st ≡ (ok v', st')
    → (validate_venue v ≡ ok tt)
      × (has_id v'.id st.venues ≡ false)
      × (v' ≡ new_venue st.next_id v)
      × (st'.venues ≡ st.venues ++ stored column v' ∷ [])
unfolding create_venue
create_venue-ok column fault v v' st st' h = elim (Result-cases (validate_venue v)) [
  | inl (e, bad) ↦ absurd (cc (rw (bad, create_venue) at h))
  | inr (u, good) ↦ elim (Option-cases fault) [
    | inr (e, f) ↦ absurd (cc (rw (good, f, create_venue) at h))
    | inl f ↦
        let w = new_venue st.next_id v in
        elim (Bool-cases (is_negative v.hour_price || has_id w.id st.venues)) [
          | inl broken ↦ absurd (cc (rw (good, f, broken, create_venue) at h))
          | inr fine ↦
              let done = rw (good, f, fine, create_venue) at h in
              let same : w ≡ v' = cc done in
              (
                good,
                subst (λ x. has_id x.id st.venues ≡ false) same (or_right _ _ fine),
                sym same,
                subst (λ x. st'.venues ≡ st.venues ++ stored column x ∷ []) same (cc done),
              )
        ]
  ]
]

All-open : (w : Weekdays) → All (λ d. d.enabled ≡ true) (days_of (week_default w))
unfolding week_default
All-open w = (
  open_day w.monday,
  (
    open_day w.tuesday,
    (
      open_day w.wednesday,
      (open_day w.thursday, (open_day w.friday, (open_day w.saturday, (open_day w.sunday, tt)))),
    ),
  ),
)
  where
    open_day : (d : DaySchedule) → (day_default d).enabled ≡ true
    open_day d = ground arith

-- Of a day that is valid and stays so when it is enabled.
was_open : (d : DaySchedule) → IsDay d → IsDay (day_default d) → d.enabled ≡ true
was_open d (inl h) k = h.0
was_open d (inr h) (inl k) = absurd (cc (h.1, k.1.2))
was_open d (inr h) (inr k) = absurd (ground (arith, k.0))

All-were_open :
    (ds : List DaySchedule)
    → All IsDay ds
    → All IsDay (map day_default ds)
    → All (λ d. d.enabled ≡ true) ds
All-were_open [] a b = tt
All-were_open (d ∷ ds) a b = (was_open d a.0 b.0, All-were_open ds a.1 b.1)

defaults_of :
    (w : Weekdays) → All IsDay (days_of (week_default w)) → All IsDay (map day_default (days_of w))
unfolding week_default
defaults_of w a = a

new_venue-default :
    (n : ℕ) (v : Venue)
    → ((new_venue n v).is_active ≡ true)
      × ((new_venue n v).deleted ≡ false)
      × ((new_venue n v).weekdays ≡ week_default v.weekdays)
unfolding new_venue
new_venue-default n v = (ground arith, refl, refl)

-- A venue that is created had a valid week in the request. What is stored, and what is returned, is
-- active and has all seven days enabled, whatever the request says of them; the next read of the new
-- id finds it, and every other venue reads as before.
pub create-defaults :
    (db : Db) (v v' : Venue) (st st' : Store)
    → create db v st ≡ (ok v', st')
    → All IsDay (days_of v.weekdays)
      × (v'.is_active ≡ true)
      × All (λ d. d.enabled ≡ true) (days_of v'.weekdays)
      × (get_venue none v'.id st'
          ≡ ok (record v' { weekdays = week_columns db.column v'.weekdays }))
      × Others v'.id st st'
unfolding create get_venue find_venue
create-defaults db v v' st st' h =
    let (valid, fresh, same, table) = create_venue-ok db.column db.write_fault v v' st st' h in
    let (active, live, week) = new_venue-default st.next_id v in
    let row = stored db.column v' in
    let good = (validate_venue_iff v).0 valid in
    (
      good.1,
      rw same active,
      subst (λ w. All (λ d. d.enabled ≡ true) (days_of w)) (sym (ap (λ x. x.weekdays) same ∙ week))
          (All-open v.weekdays),
      rw (table, first_venue-append_new st.venues row fresh (rw same live)) refl,
      λ j ne. rw (table, first_venue-append_ne j st.venues row (λ e. ne (sym e))) refl,
    )

-- A created venue, as the insert leaves it, passes the check before a write only where the request
-- had every day enabled.
pub create-closed_day :
    (db : Db) (v v' : Venue) (st st' : Store)
    → create db v st ≡ (ok v', st')
    → validate_venue v' ≡ ok tt
    → All (λ d. d.enabled ≡ true) (days_of v.weekdays)
unfolding create
create-closed_day db v v' st st' h good =
    let (valid, fresh, same, table) = create_venue-ok db.column db.write_fault v v' st st' h in
    let week = ap (λ x. x.weekdays) same ∙ (new_venue-default st.next_id v).2 in
    let request = ((validate_venue_iff v).0 valid).1 in
    let row = ((validate_venue_iff v').0 good).1 in
    All-were_open (days_of v.weekdays) request
      (defaults_of v.weekdays (subst (λ w. All IsDay (days_of w)) week row))
