-- ===== src/Reservation/Query.antt =====
-- The reading methods of the booking service: `GetUserReservations`, `GetByID` and
-- `GetVenueBookings` of internal/service/booking-service.go.
use booking_venue.Base.{
  ℕ, ◌≡◌, ◌≢◌, ◌⊎◌, not, ◌&&◌, Option, none, some, List, ◌==◌, filter, Result, ok, err, ◌>>=◌, ◌>>◌,
  fail_if, arith,
}
use booking_venue.Reservation.Model.{
  is_owner, is_admin, admin, owner, Claims, ReservationDetails, Reservation, ResponsVenueServ,
  ServiceError, err_forbidden, err_not_owner,
}
use booking_venue.Reservation.Repo.{
  Store, get_by_id, get_user_reservations, get_venue_bookings, is_of_venue,
}
use booking_venue.Reservation.Schedule.{Reply, failed, replied, get_venue}

module _ {F : Type 0} where
  unfoldable pub list_user_reservations :
      Option ServiceError → ℕ → Store F → Result ServiceError (List Reservation)
  list_user_reservations fault user st = get_user_reservations fault user st

  unfoldable pub show_reservation :
      Option ServiceError → ℕ → Store F → Result ServiceError (ReservationDetails F)
  show_reservation fault id st = get_by_id fault id st

  -- `claims` is `none` where the pointer is nil.
  unfoldable pub list_venue_bookings :
      Reply (ResponsVenueServ F)
      → Option ServiceError
      → ℕ
      → Option Claims
      → Store F
      → Result ServiceError (List (ReservationDetails F))
  list_venue_bookings reply fault venue_id none st = err err_forbidden
  list_venue_bookings reply fault venue_id (some claims) st = do
    fail_if (not (is_owner claims.role) && not (is_admin claims.role)) err_forbidden
    venue ← get_venue reply
    fail_if (not (is_admin claims.role) && not (venue.owner_id == claims.user_id)) err_not_owner
    get_venue_bookings fault venue_id st

  -- Whoever is shown the bookings of a venue is an admin, or an owner whose id is the one that the
  -- venue service gives as the venue's owner; and what is shown are the venue's live bookings, all of
  -- them and in the order of the table.
  pub list_venue_bookings-authorized :
      (reply : Reply (ResponsVenueServ F)) (fault : Option ServiceError) (venue_id : ℕ)
      (claims : Claims) (st : Store F) {shown : List (ReservationDetails F)}
      → list_venue_bookings reply fault venue_id (some claims) st ≡ ok shown
      → (v : ResponsVenueServ F) × (reply ≡ replied 200 v)
        × ((claims.role ≡ admin) ⊎ ((claims.role ≡ owner) × (v.owner_id ≡ claims.user_id)))
        × (shown ≡ filter (is_of_venue venue_id) st.details)
  unfolding list_venue_bookings get_venue get_venue_bookings
  list_venue_bookings-authorized (failed e) fault venue_id claims st h = ground arith
  list_venue_bookings-authorized (replied code v) fault venue_id claims st h =
      (v, ground arith, ground arith, ground arith)

  -- Whose role is neither admin nor owner is refused as forbidden, whatever the venue service and the
  -- database answer.
  pub list_venue_bookings-forbidden :
      (reply : Reply (ResponsVenueServ F)) (fault : Option ServiceError) (venue_id : ℕ)
      (claims : Claims) (st : Store F)
      → claims.role ≢ admin
      → claims.role ≢ owner
      → list_venue_bookings reply fault venue_id (some claims) st ≡ err err_forbidden
  unfolding list_venue_bookings
  list_venue_bookings-forbidden reply fault venue_id claims st a o = ground arith
