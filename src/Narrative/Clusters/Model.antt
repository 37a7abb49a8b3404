-- ===== src/Narrative/Clusters/Model.antt =====
-- services/narrative-miner/src/cluster.ts: the clusters, the manager and its configuration, and what it
-- reads and returns.
use trenches.Base.{ℕ, List, Option, String}
use trenches.Base.Dict.{Dict}
use trenches.Narrative.Clusters.Index.{LshIndex}

pub record Cluster (V : Type 0) : Type 0 where
  pub id : String
  pub label : String
  pub centroid : List V
  pub phrases : List String
  pub observations : ℕ
  pub last_updated : ℕ
  pub sss : V
  pub novelty : V
  pub sources : Dict ℕ

pub record ClusterManager (V : Type 0) : Type 0 where
  pub clusters : Dict (Cluster V)
  pub phrase_to_cluster : Dict String
  pub index : LshIndex

pub record ClusterUpdate (V : Type 0) : Type 0 where
  pub topic_id : String
  pub label : String
  pub sss : V
  pub decayed_sss : V
  pub novelty : V
  pub sources : List String
  pub added_phrases : List String
  pub window_seconds : ℕ

pub record TopicClusterRecord (V : Type 0) : Type 0 where
  pub topic_id : String
  pub label : String
  pub centroid : Option (List V)
  pub phrases : Option (List String)
  pub sss : Option V
  pub novelty : Option V

pub record BaselineSnapshot (V : Type 0) : Type 0 where
  pub count : V
  pub engagement : V
  pub authors : V

pub record ExtractedPhrase : Type 0 where
  pub key : String
  pub label : String

-- The three configurations of the constructor, and what it makes of them.
pub record Settings (V : Type 0) : Type 0 where
  pub min_cosine : V
  pub merge_min_observations : ℕ
  pub novelty_epsilon : V
  pub uniques_min : V
  pub recency_half_life_ms : V
  pub baseline_window_minutes : V
  pub window_duration_sec : ℕ
  pub embedding_dim : ℕ
  pub vectorizer : String → List V
  pub planes : List (List (List V))
  pub hex : ℕ → ℕ → String
  pub sort : List String → List String
