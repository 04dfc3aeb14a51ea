-- ===== src/Tests.antt =====
-- The theorems at concrete inputs: a small world, and one run of each kind through it.
pub mod World
pub mod Files
pub mod Faults
pub mod Listening
pub mod Disk
pub mod Execution
pub mod Records
pub mod Nodes
pub mod Messages
pub mod Loop
pub mod Production
