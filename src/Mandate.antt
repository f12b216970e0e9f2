-- ===== src/Mandate.antt =====
-- Mandates (crates/ml-core/src/mandate.rs): patterns, scopes, bodies, signatures.
pub mod Errors
pub mod Pattern
pub mod Scope
pub mod Body
pub mod Narrowing
pub mod Delegation
pub mod Comparison
