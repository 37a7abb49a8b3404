-- ===== src/Persistence.antt =====
-- packages/persistence.
pub mod WriteQueue
