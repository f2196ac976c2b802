-- ===== src/Engagement/Rules.antt =====
-- internal/engagement/rules: the multi-fact rules over a host.
pub mod Listeners
pub mod Databases
