-- ===== src/Updates.antt =====
-- intel/updates.py: signed bundles of intelligence, their activation, rollback and recovery.
pub mod State
pub mod Store
pub mod Operations
pub mod Values
pub mod Seeds
pub mod Bundle
pub mod Trust
pub mod Verified
pub mod Installed
pub mod Postcondition
pub mod Specification
pub mod Reversal
pub mod Sequence
pub mod HighWater
pub mod Restore
pub mod Soundness
pub mod Progress
mod Tests
