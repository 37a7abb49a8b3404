-- ===== src/Executor.antt =====
-- services/executor/src: the statistics of the routes, the preset after a migration, the priority
-- fee and the choice of fees.
pub mod Routes
pub mod Pricing
pub mod FeeBandit
pub mod Sender
mod Examples
