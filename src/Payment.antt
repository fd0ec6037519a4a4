-- ===== src/Payment.antt =====
-- The payment service.
pub mod Model
pub mod Repo
pub mod Service
pub mod Refunds
pub mod Consumer
pub mod Transport
pub mod Balance
pub mod History
