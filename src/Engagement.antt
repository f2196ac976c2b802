-- ===== src/Engagement.antt =====
-- internal/engagement: the engagement's own severity table, its gate and its scope, and its rules over hosts.
pub mod Severity
pub mod Gate
pub mod Locator
pub mod Scope
pub mod Rules
