-- ===== src/Util.antt =====
-- packages/util: what the services share.
pub mod TtlCache
pub mod Math
pub mod Sse
