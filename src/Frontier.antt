-- ===== src/Frontier.antt =====
-- src/dependency_frontier.rs: for each allocation the byte intervals in use, with the last writer
-- and the readers since, and the dependencies that a new operation takes from them.
mod Segments
mod Split
mod Sweep
mod Cells
mod Track
pub mod Refinement
pub mod Uses
pub mod Hazards
pub mod Causes
mod Tests
unfoldable pub use Segments.*
unfoldable pub use Split.*
unfoldable pub use Sweep.*
unfoldable pub use Cells.*
unfoldable pub use Track.*
