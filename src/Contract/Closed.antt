-- ===== src/Contract/Closed.antt =====
-- The reservation service with the answers of the venue service: every venue is closed every day.
use booking_venue.Base.{
  ℕ, zero, suc, ◌≡◌, ◌≢◌, refl, sym, ap, ◌∙◌, ◌⊎◌, inl, inr, Option, [], ok, err, Result-cases,
  arith,
}
use booking_venue.Clock.{Time, weekday}
use booking_venue.Clock.HourMinute.{Text}
use booking_venue.Float64.{Float64}
use booking_venue.Reservation.Model.{Claims, ReservationCreate, ResponsVenueServFull, ServiceError}
use booking_venue.Reservation.Repo.{Store}
use booking_venue.Reservation.Schedule.{
  Reply, failed, replied, get_venue_schedule, day_schedule, check_schedule_match, validate_schedule,
}
use booking_venue.Reservation.Schedule.Hours.{validate_passed}
use booking_venue.Reservation.Create.{CreateEnv, create_reservation}
use booking_venue.Reservation.Create.Effects.{Ends, create_reservation-Ends}
use booking_venue.Reservation.Availability.{get_venue_availability}
use booking_venue.Venue.Repo as Venues
use booking_venue.Venue.Service.{Db}
use booking_venue.Venue.Transport.{
  Body, Response, error_body, venue_body, venues_body, schedule_body, types_body, deactivated,
  no_body, handle_get,
}
use booking_venue.Contract.{zero_day, zero_week, full_of, schedule_reply}

full_of-closed : {F : Type 0} (z : F) (b : Body) → (full_of z b).weekdays ≡ zero_week
unfolding schedule_reply
full_of-closed z (error_body e) = refl
full_of-closed z (venue_body v) = refl
full_of-closed z (venues_body vs) = refl
full_of-closed z (schedule_body s) = refl
full_of-closed z (types_body ts) = refl
full_of-closed z deactivated = refl
full_of-closed z no_body = refl

get_venue_schedule-ok :
    {F : Type 0} (r : Reply (ResponsVenueServFull F)) (v : ResponsVenueServFull F)
    → get_venue_schedule r ≡ ok v
    → r ≡ replied 200 v
unfolding get_venue_schedule
get_venue_schedule-ok (failed e) v h = cc
get_venue_schedule-ok (replied code w) v h = ground arith

-- Whatever venue is read from an answer, its week is the empty one.
schedule_reply-closed :
    {F : Type 0} (z : F) (r : Response) (v : ResponsVenueServFull F)
    → schedule_reply z r ≡ replied 200 v
    → v.weekdays ≡ zero_week
unfolding schedule_reply
schedule_reply-closed {F} z r v h =
    let same : full_of z r.body ≡ v = cc h in
    sym (ap (λ (w : ResponsVenueServFull F). w.weekdays) same) ∙ full_of-closed z r.body

zero_week-day : (n : ℕ) → day_schedule zero_week n ≡ zero_day
unfolding day_schedule
zero_week-day zero = refl
zero_week-day (suc zero) = refl
zero_week-day (suc (suc zero)) = refl
zero_week-day (suc (suc (suc zero))) = refl
zero_week-day (suc (suc (suc (suc zero)))) = refl
zero_week-day (suc (suc (suc (suc (suc zero))))) = refl
zero_week-day (suc (suc (suc (suc (suc (suc n)))))) = refl

-- No booking fits the schedule that is read.
validate_schedule-closed :
    {F : Type 0} (z : F) (r : Response) (start_at end_at : Time)
    → validate_schedule (schedule_reply z r) start_at end_at ≢ ok tt
unfolding check_schedule_match
validate_schedule-closed z r start_at end_at h =
    let (_, (v, read, fits)) = validate_passed (schedule_reply z r) start_at end_at h in
    let closed : day_schedule v.weekdays (weekday start_at) ≡ zero_day =
      ap (λ w. day_schedule w (weekday start_at)) (schedule_reply-closed z r v read)
      ∙ zero_week-day (weekday start_at) in
    cc (rw (closed, check_schedule_match) at fits)

module _ (float : Float64) where
  open float use {F}

  -- Where the schedule of a venue is the answer of the venue service to a GET of a venue, of any id
  -- and in any state of its table, every CreateReservation fails and changes nothing, and no time of
  -- any date is shown as free: the two services do not agree on the JSON of a week.
  pub create_reservation-closed :
      (z : F) (db : Db) (id : Text) (venues : Venues.Store) (env : CreateEnv F)
      (req : ReservationCreate) (claims : Claims) (seen st : Store F) (fault : Option ServiceError)
      (date : Time)
      → env.schedule_reply req.venue_id ≡ schedule_reply z (handle_get db id venues)
      → ((e : ServiceError) × (create_reservation float env req claims seen st ≡ (err e, st)))
        × (get_venue_availability (env.schedule_reply req.venue_id) fault req.venue_id date seen
              ≡ ok []
            ⊎ ((e : ServiceError) × (get_venue_availability
                    (env.schedule_reply req.venue_id)
                    fault
                    req.venue_id
                    date
                    seen
                  ≡ err e)))
  unfolding get_venue_availability
  create_reservation-closed z db id venues env req claims seen st fault date asked =
      (ends (create_reservation-Ends float env req claims seen st), shown)
    where
      refused : validate_schedule (env.schedule_reply req.venue_id) req.start_at req.end_at ≢ ok tt
      refused h =
          validate_schedule-closed z (handle_get db id venues) req.start_at req.end_at
            (ap (λ r. validate_schedule r req.start_at req.end_at) (sym asked) ∙ h)

      ends :
          Ends float env req claims seen st (create_reservation float env req claims seen st)
          → (e : ServiceError) × (create_reservation float env req claims seen st ≡ (err e, st))
      ends (inl (d, booked, _)) = absurd (refused booked.checks.scheduled)
      ends (inr (inl (d, booked, _))) = absurd (refused booked.checks.scheduled)
      ends (inr (inr ended)) = ended

      shown :
          (get_venue_availability (env.schedule_reply req.venue_id) fault req.venue_id date seen
            ≡ ok [])
          ⊎ ((e : ServiceError) × (get_venue_availability
                  (env.schedule_reply req.venue_id)
                  fault
                  req.venue_id
                  date
                  seen
                ≡ err e))
      shown = elim (Result-cases (get_venue_schedule (env.schedule_reply req.venue_id))) [
        | inl (e, bad) ↦ inr (e, rw (bad, get_venue_availability) refl)
        | inr (v, good) ↦
            let week =
              schedule_reply-closed z (handle_get db id venues) v
                (sym asked ∙ get_venue_schedule-ok (env.schedule_reply req.venue_id) v good) in
            let closed : day_schedule v.weekdays (weekday date) ≡ zero_day =
              ap (λ w. day_schedule w (weekday date)) week ∙ zero_week-day (weekday date) in
            inl (rw (good, get_venue_availability, closed) refl)
      ]
