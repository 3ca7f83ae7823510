-- ===== src/FakeFd.antt =====
-- source/fakefd.c, the in-process pipes, event counters and random source.
pub mod Model
pub mod Ring
pub mod Window
pub mod Chunks
pub mod Writes
pub mod Table
pub mod Descriptors
pub mod Control
pub mod Transfers
pub mod Counts
pub mod References
pub mod Lookup
pub mod Safety
pub mod Creation
pub mod Frames
pub mod PipeWrites
pub mod WriteCall
pub mod ReadCall
pub mod Guarantees
pub mod Dup2
pub mod Resize
mod Tests
