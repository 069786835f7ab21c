-- ===== src/Contracts.antt =====
-- The enumerations and constants of packages/contracts/src, which the API and the web app share.
mod Order
mod Money
mod Trust
unfoldable pub use Order.*
pub mod Slots
pub mod Phone
pub use Money.*
pub use Trust.*
