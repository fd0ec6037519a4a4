-- ===== src/Venue/Directory/Weeks.antt =====
-- A new schedule, as a step of the directory.
use booking_venue.Base.{
  ℕ, ◌≡◌, refl, sym, ap, ◌∙◌, inl, inr, Option, none, some, ok, Result-cases, subst,
}
use booking_venue.Clock.{Time}
use booking_venue.Clock.HourMinute.{Text}
use booking_venue.Venue.Model.{Weekdays, Venue}
use booking_venue.Venue.Dto.{ScheduleDto, to_schedule_dto}
use booking_venue.Venue.Repo.{Store, week_columns, set_columns}
use booking_venue.Venue.Service.{Db, get_venue, get_schedule, update_schedule}
use booking_venue.Venue.Service.Effects.{update_schedule-effect}
use booking_venue.Venue.Transport.{
  schedule_body, parse_id, schedule_input, handle_update_schedule, update_schedule_request,
}
use booking_venue.Venue.Directory.{
  found, view, Same, updating_week, putting_week, Step, malformed, missing, invalid, down,
  rescheduled,
}
use booking_venue.Venue.Directory.Reads.{read-cases}
use booking_venue.Venue.Directory.Effects.{
  update_venue-fails, update_venue-taken, update_schedule-failed, update_schedule-read, reread-row,
  others-view,
}

module _ (db : Db) (now : Time) (st : Store) where
  still : Same (view st) (view st)
  still j = (refl, refl)

  week-found :
      (id : Text) (b : Option ScheduleDto) (k : ℕ) (w : Weekdays) (old : Venue)
      → parse_id id ≡ ok k
      → schedule_input now b ≡ ok w
      → (view st).at k ≡ some old
      → get_venue db.read_fault k st ≡ ok old
      → let out = handle_update_schedule db now id b st in
        Step db now (view st) (view out.1) (update_schedule_request id b) out.0
  unfolding handle_update_schedule set_columns get_schedule get_venue
  week-found id b k w old pk pw here read = elim (Result-cases (update_schedule db k w st)) [
    | inl (e, bad) ↦
        rw (pk, pw, bad, handle_update_schedule)
          (elim (update_venue-fails db.column db.write_fault (record old { weekdays = w }) st e
            (sym (update_schedule-read db k st w old read) ∙ bad)) [
              | inl fault ↦ down (inr fault) (e, inl refl) still
              | inr broken ↦
                  invalid (record old { weekdays = w }) (putting_week k old pk pw here) broken
                    (e, inl refl) still
            ])
    | inr (st', done) ↦
        let row : Venue = record old { weekdays = week_columns db.column w } in
        let (_, (v, was, reads), others) = update_schedule-effect db k w st st' done in
        let same : some v ≡ some old = sym (ap found was) ∙ here in
        let as_read : v ≡ old = cc same in
        let now_reads : get_venue none k st' ≡ ok row =
          subst (λ x. get_venue none k st' ≡ ok (record x { weekdays = week_columns db.column w }))
            as_read reads in
        let wrote = sym (update_schedule-read db k st w old read) ∙ done in
        let taken = λ (j : ℕ).
          update_venue-taken db.column db.write_fault (record old { weekdays = w }) st st' j
            wrote in
        rw
          (
            pk,
            pw,
            done,
            handle_update_schedule,
            reread-row db.reread_fault (λ x. schedule_body (to_schedule_dto x)) k st' row now_reads,
          )
          (rescheduled k w old row pk pw here refl (ap found now_reads)
            (others-view k st st' others taken))
  ]

  pub week-step :
      (id : Text) (b : Option ScheduleDto)
      → let out = handle_update_schedule db now id b st in
        Step db now (view st) (view out.1) (update_schedule_request id b) out.0
  unfolding handle_update_schedule
  week-step id b = elim (Result-cases (parse_id id)) [
    | inl (e, bad) ↦ rw (bad, handle_update_schedule) (malformed e (rw bad refl) still)
    | inr (k, pk) ↦ elim (Result-cases (schedule_input now b)) [
      | inl (e, bad) ↦ rw (pk, bad, handle_update_schedule) (malformed e (rw (pk, bad) refl) still)
      | inr (w, pw) ↦ elim (read-cases db.read_fault k st) [
        | inl (fault, e, bad) ↦
            rw (pk, pw, update_schedule-failed db k st w e bad, handle_update_schedule)
              (down (inl fault) (e, inl refl) still)
        | inr (inl (gone, bad)) ↦
            rw (pk, pw, update_schedule-failed db k st w _ bad, handle_update_schedule)
              (missing k updating_week pk (rw (pk, pw) refl) gone still)
        | inr (inr (old, here, read, _)) ↦ week-found id b k w old pk pw here read
      ]
    ]
  ]
