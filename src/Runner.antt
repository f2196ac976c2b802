-- ===== src/Runner.antt =====
-- internal/runner: the one way by which a check reaches a target.
pub mod Model
pub mod Steps
pub mod Probe
pub mod Paths
pub mod Outcome
pub mod Run
