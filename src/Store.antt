-- ===== src/Store.antt =====
-- The database (apps/api/prisma/schema.prisma) with what the services queue and emit, and the
-- monad in which their methods run.
mod Accounts
mod Rows
mod Monad
mod Writes
mod Rules
pub use Accounts.*
pub use Rows.*
unfoldable pub use Monad.*
unfoldable pub use Writes.*
pub use Rules.*
