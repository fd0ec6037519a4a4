-- ===== src/User.antt =====
-- The user service, user-service/internal: accounts, passwords and tokens.
pub mod Model
pub mod Repo
pub mod Auth
pub mod Accounts
pub mod Transport
pub mod History
