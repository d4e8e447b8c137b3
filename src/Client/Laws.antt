-- ===== src/Client/Laws.antt =====
-- What holds of the client.
pub mod Validated
pub mod Reading
pub mod Pieces
pub mod Waiting
pub mod Processes
pub mod Answered
pub mod Failing
