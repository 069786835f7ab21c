-- ===== src/Trust.antt =====
-- apps/api/src/modules/trust.
pub mod Score
pub mod Service
