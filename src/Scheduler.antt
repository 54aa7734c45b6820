-- ===== src/Scheduler.antt =====
-- src/execution/scheduler.rs: the pending submissions of a runtime, what may start, and the native
-- stages that share the compute lane.
mod State
mod Queue
mod Next
mod Settle
mod Native
pub mod Blockers
pub mod Steps
pub mod Starts
pub mod Exclusive
mod Tests
unfoldable pub use State.*
unfoldable pub use Queue.*
unfoldable pub use Next.*
unfoldable pub use Settle.*
unfoldable pub use Native.*
