-- ===== src/Contract.antt =====
-- What the services say to each other in JSON, by the names of the fields: the answer of the venue
-- service for a venue as internal/dto/dto.go of the reservation service decodes it, and the messages
-- of internal/kafka/producer.go as the consumer of the payment service decodes them.
pub mod Closed
pub mod Paying
use booking_venue.Base.{false, none}
use booking_venue.Clock.{Time, utc, zero_instant}
use booking_venue.Reservation.Model.{
  BookingCreatedEvent, BookingCancelledEvent, DaySchedule, Weekdays, ResponsVenueServ,
  ResponsVenueServFull,
}
use booking_venue.Reservation.Schedule.{Reply, replied}
use booking_venue.Venue.Dto.{VenueDto}
use booking_venue.Venue.Transport.{Body, Response, venue_body}
use booking_venue.Payment.Consumer

abbrev zero_time : Time
zero_time = record { instant = zero_instant; location = utc }

-- What a decoder leaves in a field for which there is no key.
abbrev pub zero_day : DaySchedule
zero_day = record { enabled = false; start_time = none; end_time = none }

abbrev pub zero_week : Weekdays
zero_week = record {
  monday = zero_day;
  tuesday = zero_day;
  wednesday = zero_day;
  thursday = zero_day;
  friday = zero_day;
  saturday = zero_day;
  sunday = zero_day;
}

module _ {F : Type 0} (zero : F) where
  abbrev zero_venue : ResponsVenueServ F
  zero_venue = record {
    id = 0;
    owner_id = 0;
    start_at = zero_time;
    end_at = zero_time;
    hour_price = zero;
  }

  abbrev zero_full : ResponsVenueServFull F
  zero_full = record {
    id = 0;
    owner_id = 0;
    start_at = zero_time;
    end_at = zero_time;
    hour_price = zero;
    weekdays = zero_week;
  }

  -- A VenueDTO decoded as ResponsVenueServ: both have the keys `id` and `owner_id`; the price is looked
  -- for under `price_cents`, but is sent under `hour_price`.
  unfoldable pub read_venue : VenueDto → ResponsVenueServ F
  read_venue v = record zero_venue { id = v.id; owner_id = v.owner_id }

  -- A VenueDTO decoded as ResponsVenueServFull: the week is looked for under a key `weekdays` inside
  -- of the object `weekdays`, which has the seven days as its keys.
  unfoldable pub read_full : VenueDto → ResponsVenueServFull F
  read_full v = record zero_full { id = v.id; owner_id = v.owner_id }

  -- The two requests GET /venues/<id>, with the response of the venue service. No other body of that
  -- route is decoded.
  abbrev pub venue_of : Body → ResponsVenueServ F
  venue_of (venue_body v) = read_venue v
  venue_of _ = zero_venue

  abbrev pub full_of : Body → ResponsVenueServFull F
  full_of (venue_body v) = read_full v
  full_of _ = zero_full

  unfoldable pub venue_reply : Response → Reply (ResponsVenueServ F)
  unfolding read_venue
  venue_reply r = replied r.code (venue_of r.body)

  unfoldable pub schedule_reply : Response → Reply (ResponsVenueServFull F)
  unfolding read_full
  schedule_reply r = replied r.code (full_of r.body)

-- The event of booking.created, decoded by the consumer.
unfoldable pub read_created : {F : Type 0} → BookingCreatedEvent F → Consumer.BookingCreatedEvent F
read_created e = record { booking_id = e.booking_id; client_id = e.client_id; price = e.price }

-- The event of booking.cancelled.
unfoldable pub read_cancelled : BookingCancelledEvent → Consumer.BookingCancelledEvent
read_cancelled e = record { booking_id = e.booking_id }
