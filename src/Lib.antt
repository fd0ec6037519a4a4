-- ===== src/Lib.antt =====
-- Verification of the booking of venues: four Go services behind a gateway, which talk over HTTP and
-- Kafka.
--
-- The program's parts and their files. The gateway (gateway/internal) takes every request first:
-- middleware/auth.go and models/claims.go are Gateway/Auth, transport/routes.go with proxy/proxy.go is
-- Gateway/Routes, and transport/aggregate.go, which puts a booking, its venue and its payment together,
-- is Gateway/Summary.
--
-- The user service (user-service/internal) issues the tokens that the others read: models/ and dto/ are
-- User/Model, repository/user_repository.go with the database under it is User/Repo,
-- services/auth_service.go is User/Auth, services/user_service.go is User/Accounts, and
-- transport/auth_handler.go and transport/user_handler.go with the routes of cmd/app/main.go are
-- User/Transport. User/History runs its requests.
--
-- The reservation service (reservation-service/internal) keeps the bookings: models/, dto/ and errors/
-- are Reservation/Model, repository/booking-repo.go with the database under it is Reservation/Repo,
-- middleware/auth_middleware.go is Reservation/Middleware, transport/booking.go is
-- Reservation/Transport, and service/booking-service.go is the rest of Reservation: Schedule
-- (getVenueSchedule, checkScheduleMatch and the first half of ValidateReservation), Conflict
-- (checkBookingConflictsTx), Create (CreateReservation), Cancel (ReservationCancel), Update
-- (ReservationUpdate, ValidateReservationUpdate), Query (GetUserReservations, GetByID, GetVenueBookings)
-- and Availability (GetVenueAvailability). It asks the venue service for a venue and its schedule, and
-- writes one Kafka message for each booking that is created or cancelled, which the payment service
-- follows.
--
-- The payment service (payment-service/internal) is Payment: models/ and dto/ are Payment/Model,
-- repository/ is Payment/Repo, services/payment-service.go is Payment/Service,
-- services/refund-service.go is Payment/Refunds, transport/handler.go is Payment/Transport and
-- transport/kafka/consumer.go is Payment/Consumer. Payment/Balance holds the invariant of its two tables.
--
-- The venue service (venue-service/internal) is Venue: models/venue.go with the hook before a write is
-- Venue/Model, validation/time.go is Venue/Validation, transport/dto.go is Venue/Dto,
-- repository/venue_repository.go is Venue/Repo, services/venue_service.go is Venue/Service,
-- transport/venue_transport.go is Venue/Transport and seed/seed.go is Venue/Seed. Venue/Directory is an
-- abstract description of the whole service, as a directory of venues.
--
-- Contract puts the services together: what the reservation service decodes of an answer of the venue
-- service, and what the consumer of the payment service decodes of an event of the reservation service
-- (internal/kafka/producer.go).
--
-- How the code is translated. A table is a list of rows in a store, with the value of its sequence; a
-- repository's method is a function on the store that returns a result, with the error that the database
-- may answer as an argument. A method of a service takes what the world answers while it runs (clocks,
-- HTTP replies, faults, the broker) as a record and returns its result with the store after it. Where a
-- request reads before it writes and other requests may come in between, the store that is read and the
-- one that is written are separate arguments. The HTTP client, the database driver, gin, the broker,
-- bcrypt and the libraries for JWT and UUID are parameters in this way. Times and their arithmetic are
-- those of Go's package time (Clock), texts and their parsing those of strings and strconv (Strings); a
-- float64 is a parameter (Float64); an int64 wraps around (Base/Int). History modules run requests one
-- after another, and so does Venue/Directory; in User/History the store that a request reads may be
-- an earlier one than it writes. No function needs fuel: every loop of the code runs over a list, and the
-- loops of the consumer over the turns that they make.
--
-- What is not modelled: reading the environment, connections, migrations, logging and the start of the
-- servers, which are input and output; the writer of the Kafka library under the producer. The encoding
-- of JSON is not modelled either: a decoded body is given, between two services the fields are matched by
-- their keys, and where the gateway decodes a body, the decoder is a parameter. The time columns of the
-- bookings give back the time written, which holds of whole microseconds; the ids that their sequence
-- skips after a failed insert, and other writes between the count and the insert of one transaction, are
-- left out too. A request on the venue service runs with no other between its statements.
--
-- Examples holds concrete inputs of each service.
pub mod Base
pub mod Clock
pub mod Float64
pub mod Strings
pub mod Reservation
pub mod Payment
pub mod Venue
pub mod User
pub mod Gateway
pub mod Contract
pub mod Examples
