-- ===== src/Db.antt =====
-- The database and the event emitter that every service shares (prisma/schema.prisma): the
-- column types, the rows, the state and the monad in which the services' methods are written.
mod Types
mod Rows
mod State
mod Monad
pub use Types.*
pub use Rows.*
pub use State.*
pub use Monad.*
