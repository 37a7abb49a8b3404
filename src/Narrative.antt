-- ===== src/Narrative.antt =====
-- services/narrative-miner.
pub mod Dedupe
pub mod WatchWindows
pub mod PhraseTracker
pub mod Clusters
pub mod Matcher
pub mod Baseline
