-- ===== src/Gpu.antt =====
-- src/runtime.rs and src/access_graph.rs: recording of GPU graphs.
pub mod Recording
pub mod Barriers
pub mod AccessGraph
pub mod Views
pub mod History
pub mod Hazards
pub mod Failures
mod Tests
