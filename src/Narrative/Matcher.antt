-- ===== src/Narrative/Matcher.antt =====
-- services/narrative-miner/src/matcher.ts: the clusters by phrase (`Matcher`) and the automaton that
-- finds the phrases in a text (`AhoCorasick`).
pub mod Automaton
pub mod Topics
mod Examples
