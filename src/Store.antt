-- ===== src/Store.antt =====
-- The database as the program sees it: the rows of svc-forum/prisma/schema.prisma, the driver that
-- reads and writes them, and transactions (svc-forum/src/lib/data-access/shared.ts).
mod Rows
mod Driver
pub mod Transaction
pub mod Io
pub mod Index
pub use Rows.*
pub use Driver.*
unfoldable pub use Transaction.*
