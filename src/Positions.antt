-- ===== src/Positions.antt =====
-- services/position-manager/src: the open positions, what a fill does to them, and the exits.
pub mod Fills
pub mod Stops
pub mod Exits
pub mod Evaluation
pub mod Refresh
pub mod Storage
mod Examples
