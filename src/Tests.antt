-- ===== src/Tests.antt =====
-- Runs of the model, and the theorems at concrete inputs.
pub mod Sample
pub mod Searching
pub mod Lookup
pub mod Opening
pub mod Answering
pub mod Dropping
pub mod Debugging
pub mod Closing
pub mod Relocating
pub mod Tables
pub mod Finding
pub mod Threads
pub mod Starting
pub mod Hooking
