-- ===== src/Tests.antt =====
-- Concrete data, runs on it, and the theorems applied to it.
mod Fixtures
mod Queues
mod Mounts
mod Kernel
mod Clients
mod Services
mod Lookups
mod Commands
mod Lifecycle
mod Rounds
mod Locking
