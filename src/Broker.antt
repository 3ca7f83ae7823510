-- ===== src/Broker.antt =====
-- source/memory_broker.c, the allocator entry points of the host code.
pub mod Counters
pub mod Model
pub mod Entry
pub mod Allocate
pub mod Release
pub mod Buckets
pub mod Blocks
pub mod Fallback
pub mod Attempts
pub mod Serving
pub mod Ownership
pub mod Resize
pub mod Sbrk
mod Tests
mod ServingTests
