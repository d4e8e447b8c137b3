-- ===== src/File.antt =====
-- src/bin/server/file.rs: the entries of a mounted filesystem, their caches and buffers, their
-- extended attributes, and the per-disk lists of entries. A byte is a number, a `SystemTime` is a
-- number of milliseconds, and what reads the clock takes the time as its argument `now`.
pub mod Buffer
pub mod Xattr
pub mod Control
pub mod Cache
pub mod Entry
pub mod FileXattr
pub mod DiskInfo
