-- ===== src/X402.antt =====
-- The x402 adapter (crates/ml-adapters/src/x402): carts, payments and finality of EIP-3009 tokens.
pub mod Types
pub mod Assets
pub mod Fields
pub mod Eip3009
pub mod Payment
pub mod CartTerms
pub mod Finality
pub mod Reference
pub mod Judge
pub mod Verify
pub mod Identifiers
pub mod References
pub mod Accounts
pub mod Payments
pub mod Pricing
pub mod Registry
pub mod Evidence
pub mod Settlements
pub mod Purchases
pub mod Recorded
