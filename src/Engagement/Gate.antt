-- ===== src/Engagement/Gate.antt =====
-- internal/engagement/gate: the parts of the gate, through which every request of an engagement passes.
pub mod Address
pub mod Limiter
pub mod Answer
pub mod Declared
pub mod Template
pub mod Uses
pub mod Operation
pub mod Retry
