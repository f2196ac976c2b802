-- ===== src/Policy.antt =====
-- internal/policy: which paths may be read, and how output is redacted and cut.
pub mod Glob
pub mod Clean
pub mod Path
pub mod Redact
pub mod Cut
pub mod Budgets
