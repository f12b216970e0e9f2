-- ===== src/Postgres.antt =====
-- The PostgreSQL store (crates/ml-store-postgres/src).
pub mod Tables
pub mod Convert
pub mod Decide
pub mod Write
pub mod Query
pub mod Agreement
pub mod Rows
pub mod Stages
pub mod Decided
pub mod Logged
pub mod Frames
pub mod Success
pub mod Preserved
pub mod Refinement
pub mod Start
pub mod Runs
pub mod Races
