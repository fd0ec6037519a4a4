-- ===== src/Reservation/Create/Checks.antt =====
-- What a request that passes `CreateReservation`'s checks satisfies.
use booking_venue.Base.{
  ◌≡◌, ◌≢◌, ◌⊎◌, false, none, ◌+◌, ◌<◌, ◌≤◌, ok, arith, pos, ltb_ℤ, >>=-eq-ok, fail_if_iff,
}
use booking_venue.Clock.{Time, zero_instant, hour}
use booking_venue.Float64.{Float64}
use booking_venue.Reservation.Model.{
  err_duration, client, admin, is_empty, Claims, ReservationDetails, ReservationCreate,
  ResponsVenueServ,
}
use booking_venue.Reservation.Repo.{Store}
use booking_venue.Reservation.Schedule.{Reply, failed, replied, get_venue, validate_schedule}
use booking_venue.Reservation.Conflict.{check_booking_conflicts}
use booking_venue.Reservation.Create.{
  CreateEnv, check_request, validate_reservation, new_reservation, prepare,
}

pub record IsAcceptable (now : Time) (req : ReservationCreate) (claims : Claims) : Type 0 where
  pub has_owner : 0 < req.owner_id
  pub start_given : req.start_at.instant ≢ zero_instant
  pub end_given : req.end_at.instant ≢ zero_instant
  pub in_order : req.start_at.instant < req.end_at.instant
  pub not_past : now.instant ≤ req.start_at.instant
  pub has_status : is_empty req.status ≡ false
  pub has_role : (claims.role ≡ client) ⊎ (claims.role ≡ admin)

pub check_request-IsAcceptable :
    (now : Time) (req : ReservationCreate) (claims : Claims)
    → check_request now req claims ≡ ok tt
    → IsAcceptable now req claims
unfolding check_request
check_request-IsAcceptable now req claims h = ground arith

pub get_venue-ok :
    {F : Type 0} (r : Reply (ResponsVenueServ F)) (v : ResponsVenueServ F)
    → get_venue r ≡ ok v
    → r ≡ replied 200 v
unfolding get_venue
get_venue-ok (failed e) v h = cc
get_venue-ok (replied code w) v h = ground arith

module _ (float : Float64) where
  open float use {F}

  -- What `prepare` has established when it returns the row to insert.
  pub record IsPrepared (env : CreateEnv F) (req : ReservationCreate) (claims : Claims)
      (seen : Store F) (d : ReservationDetails F) : Type 0 where
    pub acceptable : IsAcceptable env.now req claims
    pub scheduled :
        validate_schedule (env.schedule_reply req.venue_id) req.start_at req.end_at ≡ ok tt
    pub unbooked :
        check_booking_conflicts env.validate_fault seen.reservations req.venue_id req.start_at
          req.end_at none
        ≡ ok tt
    pub venue : ResponsVenueServ F
    pub replies : env.venue_reply req.venue_id ≡ replied 200 venue
    pub row : d ≡ new_reservation float req claims venue
    pub long : req.start_at.instant + hour ≤ req.end_at.instant

  validate_reservation-ok :
      (env : CreateEnv F) (req : ReservationCreate) (seen : Store F)
      → validate_reservation float env req seen ≡ ok tt
      → (validate_schedule (env.schedule_reply req.venue_id) req.start_at req.end_at ≡ ok tt)
        × (check_booking_conflicts env.validate_fault seen.reservations req.venue_id req.start_at
              req.end_at none
            ≡ ok tt)
  unfolding validate_reservation
  validate_reservation-ok env req seen h = ground arith

  new_reservation-long :
      (req : ReservationCreate) (claims : Claims) (venue : ResponsVenueServ F)
      → ltb_ℤ (new_reservation float req claims venue).duration (pos hour) ≡ false
      → req.start_at.instant + hour ≤ req.end_at.instant
  unfolding new_reservation
  new_reservation-long req claims venue h = ground arith

  pub prepare-IsPrepared :
      (env : CreateEnv F) (req : ReservationCreate) (claims : Claims) (seen : Store F)
      (d : ReservationDetails F)
      → prepare float env req claims seen ≡ ok d
      → IsPrepared env req claims seen d
  unfolding prepare
  prepare-IsPrepared env req claims seen d h =
      let (_, checked, h₁) = >>=-eq-ok _ _ h in
      let (_, validated, h₂) = >>=-eq-ok _ _ h₁ in
      let (venue, got, h₃) = >>=-eq-ok _ _ h₂ in
      let (_, long, h₄) = >>=-eq-ok _ _ h₃ in
      let (scheduled, unbooked) = validate_reservation-ok env req seen validated in
      record {
        acceptable = check_request-IsAcceptable env.now req claims checked;
        scheduled = scheduled;
        unbooked = unbooked;
        venue = venue;
        replies = get_venue-ok _ venue got;
        row = ground arith;
        long = new_reservation-long req claims venue ((fail_if_iff _ err_duration).0 long);
      }
