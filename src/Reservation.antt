-- ===== src/Reservation.antt =====
-- The reservation service.
pub mod Model
pub mod Repo
pub mod Schedule
pub mod Conflict
pub mod Create
pub mod Cancel
pub mod Update
pub mod Query
pub mod History
pub mod Availability
pub mod Middleware
pub mod Transport
