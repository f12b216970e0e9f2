-- ===== src/Store.antt =====
-- Persistence (crates/ml-core/src/store.rs): the interface and the in-memory store.
pub mod Interface
pub mod Inner
pub mod Validate
pub mod Commit
pub mod Memory
pub mod Chain
pub mod Append
pub mod Log
pub mod Audit
pub mod Reach
pub mod Exact
pub mod Projection
pub mod Prune
pub mod History
pub mod Lifecycle
pub mod Denials
pub mod Revocation
pub mod Reserve
pub mod Nonces
pub mod Balance
pub mod Budget
pub mod Conservation
pub mod Velocity
pub mod Stored
