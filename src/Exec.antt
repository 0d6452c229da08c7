-- ===== src/Exec.antt =====
-- The service methods as actions over a world: the database, the clock, the identifiers not yet
-- used, and a schedule of connection faults (internal/database/database.go, and the shape of every
-- call that internal/db makes). A statement consumes one entry of the schedule, and fails with
-- `driver` where that is `true`; the schedule's end means no more faults.
mod Monad
mod Statements
pub mod Rules
pub mod Grows
pub mod Keeps
pub mod Calm
unfoldable pub use Monad.*
unfoldable pub use Statements.*
