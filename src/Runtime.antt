-- ===== src/Runtime.antt =====
-- The runtime history of intel/database.py: what is stored of a scored event, and what a later event
-- sees of it.
pub mod Facts
pub mod Flags
pub mod Store
pub mod Load
pub mod Selection
pub mod Isolation
pub mod Retention
pub mod Linked
pub mod Chain
pub mod Fingerprint
pub mod Session
mod Tests
