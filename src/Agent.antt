-- ===== src/Agent.antt =====
-- internal/agent: the pass in which a model calls tools, and what it may spend.
pub mod Fit
pub mod Tools
pub mod Loop
