-- ===== src/Narrative/Clusters.antt =====
-- services/narrative-miner/src/cluster.ts: the index of the clusters by their vectors (`LshIndex`),
-- and the clusters (`ClusterManager`), with the vectors of embedding.ts.
pub mod Vectors
pub mod Index
pub mod Model
pub mod Manager
mod Examples
