-- ===== src/Fuser/Laws.antt =====
-- What the answers to the kernel promise, by handler.
pub mod Polling
pub mod Waiting
pub mod Reads
pub mod Entries
pub mod Agreement
pub mod Listing
pub mod Through
pub mod Refreshed
pub mod Names
pub mod Sizes
