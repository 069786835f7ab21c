-- ===== src/Dispatch.antt =====
-- apps/api/src/modules/dispatch.
pub mod Scoring
pub mod Eligibility
pub mod Service
pub mod Offers
