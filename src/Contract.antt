-- ===== src/Contract.antt =====
-- The contract library (src/contract): the state of a session, the checks on it, and the reducer
-- that applies mutations.
pub mod Common
pub mod Content
pub mod State
pub mod Interaction
pub mod Snapshot
pub mod Canonical
pub mod Transition
pub mod Put
pub mod RunGraph
pub mod Checks
pub mod Validate
pub mod Reducer
pub mod Sync
pub mod Preview
pub mod Command
pub mod Executor
mod Samples
pub mod Examples
