-- ===== src/Mount/Unique.antt =====
-- The inodes of a mount (src/bin/server/mount.rs): given out once, kept unique, and found again.
pub mod Counting
pub mod Numbering
pub mod Created
pub mod Kept
pub mod Reached
pub mod Alike
pub mod Live
