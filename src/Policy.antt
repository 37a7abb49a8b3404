-- ===== src/Policy.antt =====
-- services/policy-engine.
pub mod Bandit
pub mod Alpha
pub mod Plan
pub mod Pending
pub mod Sizing
pub mod Leader
pub mod Constrained
