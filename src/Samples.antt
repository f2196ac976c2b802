-- ===== src/Samples.antt =====
-- Concrete inputs on which the definitions are run, and to which the theorems are applied.
pub mod Chains
pub mod Paths
pub mod Hosts
pub mod Grades
pub mod Stores
pub mod Gates
pub mod Checks
pub mod Runs
pub mod Scopes
