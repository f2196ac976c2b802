-- ===== src/Engagement/Severity.antt =====
-- internal/engagement/severity/severity.go: the closed severity table of an engagement, and the
-- chain that it gives a fired judgment.
pub mod Table
pub mod Loop
pub mod Grading
pub mod Rows
