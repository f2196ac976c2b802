-- ===== src/Finding.antt =====
-- internal/finding: severities, severity chains, posture rules, grading and the finding store.
pub mod Severity
pub mod Chain
pub mod Catalog
pub mod Judgment
pub mod Clock
pub mod Predicate
pub mod Join
pub mod Report
pub mod Adjustments
pub mod Grader
pub mod Posture
pub mod Evaluate
pub mod Cited
pub mod Candidate
pub mod Store
pub mod Missing
pub mod Spelled
pub mod Lapsed
