-- ===== src/Registry.antt =====
-- pkg/registry: the evidence reducer and its stores.
pub mod Model
pub mod Normalize
pub mod Equality
pub mod Values
pub mod Liveness
pub mod Evidence
pub mod Authority
pub mod Lifecycle
pub mod Detail
pub mod Slots
pub mod Machine
pub mod Validation
pub mod Stored
pub mod Matching
pub mod Session
pub mod Snapshot
pub mod Reducer
pub mod Changes
pub mod Summary
pub mod Watch
pub mod Journal
pub mod MemoryStore
