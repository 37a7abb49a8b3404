-- ===== src/Safety.antt =====
-- services/safety-engine/src: the checks of a token candidate and their composition.
pub mod Chain
pub mod Reasons
pub mod Token
pub mod Lp
pub mod Holder
pub mod Rugguard
pub mod Engine
mod Examples
