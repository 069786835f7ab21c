-- ===== src/Orders.antt =====
-- apps/api/src/modules/orders.
pub mod State
pub mod Pricing
pub mod Access
pub mod Moves
pub mod Drafts
pub mod Quotes
pub mod Media
pub mod Jobs
pub mod Lists
pub mod Views
pub mod Isolation
pub mod Invariant
