-- ===== src/Adapters.antt =====
-- The other adapters of crates/ml-adapters: the mock rail, the rail that an operator drives, and the
-- plain JSON cart.
pub mod Mock
pub mod Sandbox
pub mod Native
pub mod Reorg
pub mod Attested
