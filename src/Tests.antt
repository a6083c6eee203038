-- ===== src/Tests.antt =====
-- Tests, and the theorems at concrete inputs.
pub mod World
mod WorkerTests
mod WriteTests
mod PartTests
mod SystemTests
mod StampTests
mod HeartbeatTests
mod LockTests
mod ConfigTests
mod BootTests
