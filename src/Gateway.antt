-- ===== src/Gateway.antt =====
-- The gateway, gateway/internal: who may pass, where a request goes, and the summary of a booking.
pub mod Auth
pub mod Routes
pub mod Summary
