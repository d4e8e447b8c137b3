-- ===== src/Mount.antt =====
-- src/bin/server/mount.rs: one mounted drive, the inodes of its entries, its requests to the
-- background processor and what it does with the responses.
pub mod State
pub mod Options
pub mod Inodes
pub mod Lookup
pub mod Listings
pub mod Requests
pub mod Responses
pub mod Unique
pub mod Found
pub mod Starting
