-- ===== src/Reservation/Availability/Answer.antt =====
-- The answer of `GetVenueAvailability` on an enabled day, against the bookings of the venue.
use booking_venue.Base.{
  ℕ, ◌+◌, ◌≡◌, ◌≤◌, true, Bool, not, ◌&&◌, none, some, List, filter, ok, arith, All, All-map,
  All-filter, All-unfilter,
}
use booking_venue.Clock.{Time, utc, hour, date_of, weekday}
use booking_venue.Clock.HourMinute.{HourMinute, Text, parse}
use booking_venue.Reservation.Model.{
  is_cancelled, ReservationDetails, AvailableSlot, ResponsVenueServFull,
}
use booking_venue.Reservation.Repo.{Store, get_venue_bookings, is_of_venue}
use booking_venue.Reservation.Schedule.{
  Reply, replied, get_venue_schedule, day_schedule, same_date, working_time,
}
use booking_venue.Reservation.Schedule.Hours.{length_of}
use booking_venue.Reservation.Availability.{day_slots, get_venue_availability}
use booking_venue.Reservation.Availability.Sweep.{IsWithin, Covered}
use booking_venue.Reservation.Availability.Slots.{
  Counts, Clear, Unbooked, IsLong, IsGood, answer, answer-IsGood, answer-Covered,
}

module _ {F : Type 0} where
  -- The bookings that keep a time from being free: the venue's live ones that are not cancelled and
  -- start on the date.
  abbrev counts : Time → ReservationDetails F → Bool
  counts date b = not (is_cancelled b.status) && same_date b.start_at date

  abbrev pub blocking : ℕ → Time → Store F → List (ReservationDetails F)
  blocking venue_id date st = filter (counts date) (filter (is_of_venue venue_id) st.details)

  -- What the venue service and the schedule say when the day is open from `o` to `c`.
  pub record IsOpen (reply : Reply (ResponsVenueServFull F)) (date : Time) (o c : HourMinute)
      : Type 0 where
    pub venue : ResponsVenueServFull F
    pub start_text : Text
    pub end_text : Text
    pub replies : reply ≡ replied 200 venue
    pub enabled : (day_schedule venue.weekdays (weekday date)).enabled ≡ true
    pub start_given : (day_schedule venue.weekdays (weekday date)).start_time ≡ some start_text
    pub end_given : (day_schedule venue.weekdays (weekday date)).end_time ≡ some end_text
    pub start_parsed : parse start_text ≡ some o
    pub end_parsed : parse end_text ≡ some c

module _ {F : Type 0} (reply : Reply (ResponsVenueServFull F)) (venue_id : ℕ) (date : Time)
    (st : Store F) {o c : HourMinute} (is_open : IsOpen reply date o c) where
  abbrev opening : Time
  opening = date_of date o.hour o.minute utc

  abbrev closing : Time
  closing = date_of date c.hour c.minute utc

  open_day :
      get_venue_availability reply none venue_id date st
      ≡ ok (answer date opening closing (filter (is_of_venue venue_id) st.details))
  unfolding get_venue_availability get_venue_schedule day_slots working_time get_venue_bookings
  open_day =
      rw is_open.replies (ground (arith, is_open.enabled, is_open.start_given, is_open.end_given))

  opening-le-closing : length_of o ≤ length_of c → opening.instant ≤ closing.instant
  unfolding date_of
  opening-le-closing h = omega arith

  counts-Counts : (b : ReservationDetails F) → Counts date b → counts date b ≡ true
  counts-Counts b k = ground arith

  Counts-counts : (b : ReservationDetails F) → counts date b ≡ true → Counts date b
  Counts-counts b k = ground arith

  -- A slot of the answer: within the working time, of an hour or more, and with no instant in common
  -- with any booking that blocks.
  abbrev pub IsFreeSlot : AvailableSlot → Type 0
  IsFreeSlot s = IsWithin opening closing s × IsLong s × All (Clear s) (blocking venue_id date st)

  -- On an enabled day whose times are in order the call returns slots, and each of them lies within
  -- the working time, lasts an hour or more, and has no instant in common with any booking of the
  -- venue that is live, not cancelled, and starts on the date.
  pub get_venue_availability-free :
      length_of o ≤ length_of c
      → (slots : List AvailableSlot) × (get_venue_availability reply none venue_id date st
          ≡ ok slots)
        × All IsFreeSlot slots
  get_venue_availability-free h =
      let bs = filter (is_of_venue venue_id) st.details in
      (
        answer date opening closing bs,
        open_day,
        All-map (IsGood date opening closing bs) IsFreeSlot (answer date opening closing bs)
            (λ s g. (
              g.0,
              g.1,
              All-filter (Clear s) (counts date) bs (
                  All-map (λ b. Counts date b → Clear s b) (λ b. counts date b ≡ true → Clear s b)
                    bs (λ b k e. k (Counts-counts b e)) g.2),
            ))
            (answer-IsGood date opening closing bs (opening-le-closing h)),
      )

  -- On an enabled day the call returns slots, and whatever part of the working time lasts an hour or
  -- more and has no instant in common with any blocking booking lies in one of them.
  pub get_venue_availability_complete :
      (x y : ℕ)
      → opening.instant ≤ x
      → x + hour ≤ y
      → y ≤ closing.instant
      → All (Unbooked x y) (blocking venue_id date st)
      → (slots : List AvailableSlot) × (get_venue_availability reply none venue_id date st
          ≡ ok slots)
        × Covered x y slots
  get_venue_availability_complete x y h l k free =
      let bs = filter (is_of_venue venue_id) st.details in
      (
        answer date opening closing bs,
        open_day,
        answer-Covered date opening closing x y bs h l k (
            All-map (λ b. counts date b ≡ true → Unbooked x y b)
              (λ b. Counts date b → Unbooked x y b) bs (λ b f e. f (counts-Counts b e))
              (All-unfilter (Unbooked x y) (counts date) bs free)),
      )
