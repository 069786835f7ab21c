-- ===== src/Auth.antt =====
-- apps/api/src/modules/auth.
pub mod Outside
pub mod Counters
pub mod Effects
pub mod Tokens
pub mod Codes
pub mod Otp
pub mod Users
pub mod Sessions
pub mod Service
