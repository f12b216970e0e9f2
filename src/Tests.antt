-- ===== src/Tests.antt =====
-- Concrete parameters, runs of the model on them, and the theorems at concrete inputs.
pub mod Sample
pub mod Runs
pub mod Purchase
pub mod Wire
pub mod Tables
pub mod Components
pub mod Stores
pub mod Engine
pub mod Answers
pub mod Rails
pub mod Adapted
