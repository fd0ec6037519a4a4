-- ===== src/Venue.antt =====
-- The venue service (venue-service): its models and their hooks, the parser of times, the repository,
-- the service and the HTTP handlers.
pub mod Model
pub mod Validation
pub mod Dto
pub mod Repo
pub mod Service
pub mod Transport
pub mod Directory
pub mod Seed
