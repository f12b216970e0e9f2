-- ===== src/Ledger.antt =====
-- The engine (crates/ml-core/src/ledger.rs).
pub mod Action
pub mod Tokens
pub mod Engine
pub mod Authorize
pub mod Payment
pub mod Settle
pub mod Finish
pub mod Queries
pub mod Outcome
pub mod Admission
pub mod Binding
pub mod Replies
pub mod Refusals
pub mod Retry
pub mod Runs
pub mod Steps
pub mod PaymentSteps
pub mod FinishSteps
pub mod Session
