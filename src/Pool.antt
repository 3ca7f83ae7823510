-- ===== src/Pool.antt =====
-- The host pool of source/libc_shim.c: free extents of the arena, its segments and the heap donor.
pub mod Extents
pub mod Cells
pub mod Links
pub mod Moves
pub mod Runs
pub mod Consume
pub mod Return
pub mod Attach
pub mod Donor
pub mod Places
pub mod Bank
pub mod Allot
pub mod Release
pub mod Sizing
pub mod Backing
pub mod Segments
pub mod Mapped
pub mod Backed
pub mod Unmapping
pub mod Commit
pub mod Loops
pub mod Live
pub mod Drop
pub mod Search
mod Tests
