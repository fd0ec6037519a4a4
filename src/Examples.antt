-- ===== src/Examples.antt =====
-- Concrete inputs of the services, at which the theorems that have conditions apply.
mod Data
mod Bookings
mod Changes
mod Availability
mod Payments
mod Venues
mod Users
mod Gateway
mod Directory
mod Handlers
mod Contract
