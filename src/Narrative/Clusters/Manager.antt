-- ===== src/Narrative/Clusters/Manager.antt =====
-- services/narrative-miner/src/cluster.ts (`ClusterManager`). The vectorizer, the planes of the
-- index, `crypto.randomUUID()`, the clock and `Array.prototype.sort` are arguments. A cluster is an
-- object that the map shares: to change it is to put it again.
pub mod Links
pub mod Scores
use trenches.Base.{
  ℕ, zero, suc, ◌+◌, ◌-◌, List, [], ◌∷◌, Option, none, some, Bool, true, false, String, ite,
  text_discrete, if◌then◌else◌, ◌or_else◌, leb, min, max, length, map,
}
use trenches.Base.Dict
use trenches.Base.Dict.{Dict}
use trenches.Base.Sets.{mem, insert, insert_all}
use trenches.Base.Number.{Number, whole}
use trenches.Util.Math.{clamp01, sigmoid}
use trenches.Narrative.PhraseTracker.{PhraseObservation}
use trenches.Narrative.Clusters.Vectors.{has_magnitude, cosine_similarity, blend_vectors}
use trenches.Narrative.Clusters.Model.{
  Cluster, ClusterManager, ClusterUpdate, TopicClusterRecord, BaselineSnapshot, ExtractedPhrase,
  Settings,
}
use trenches.Narrative.Clusters.Index.{LshIndex, compute_signature, query}
use trenches.Narrative.Clusters.Index as index

-- `SOURCE_RETENTION_MS`.
abbrev pub source_retention_ms : ℕ
source_retention_ms = 1_200_000

module _ {V : Type 0} ⦃d : Number V⦄ (cfg : Settings V) where
  open d use {ratio, plus, times, over, lt, le, max as max_number, log, tanh, pow, fround}

  abbrev pub signature : List V → List String
  signature vector = compute_signature cfg.hex 0 cfg.planes vector

  unfoldable pub compute_novelty : PhraseObservation V → BaselineSnapshot V → V
  compute_novelty observation baseline =
      let observed_rate = plus (whole observation.posts_per_minute) cfg.novelty_epsilon in
      let baseline_rate =
        plus (over baseline.count cfg.baseline_window_minutes) cfg.novelty_epsilon in
      clamp01
        (plus (ratio 5 10) (times (ratio 5 10) (tanh (log (over observed_rate baseline_rate)))))

  unfoldable pub compute_sss : PhraseObservation V → BaselineSnapshot V → V
  compute_sss observation baseline =
      let z_norm = sigmoid (over observation.z_score (whole 2)) in
      let unique_target = max_number (whole 4) cfg.uniques_min in
      let unique_score = clamp01 (over (whole observation.unique_authors) unique_target) in
      let volume_score =
        clamp01 (over (whole observation.posts_per_minute) (max_number (whole 4) unique_target)) in
      let s1 = plus (times (ratio 35 100) z_norm) (times (ratio 25 100) unique_score) in
      let s2 = plus s1 (times (ratio 2 10) volume_score) in
      clamp01 (plus s2 (times (ratio 2 10) (compute_novelty observation baseline)))

  -- `elapsed <= 0` is written without the difference.
  unfoldable pub apply_recency_decay : V → ℕ → ℕ → V
  apply_recency_decay value updated_at now =
      if leb now updated_at
      then value
      else times value (pow (ratio 5 10) (over (whole (now - updated_at)) cfg.recency_half_life_ms))

  abbrev recent_sources : ℕ → Dict ℕ → List String
  recent_sources now [] = []
  recent_sources now ((source, timestamp) ∷ m) =
      if leb now (timestamp + source_retention_ms)
      then source ∷ recent_sources now m
      else recent_sources now m

  unfoldable pub collect_sources : Cluster V → ℕ → List String
  collect_sources c now = cfg.sort (recent_sources now c.sources)

  -- The candidate of the largest cosine, of equals the first.
  unfoldable pub best_from :
      List V → Dict (Cluster V) → List String → Option (Cluster V × V) → Option (Cluster V × V)
  best_from vector clusters [] best = best
  best_from vector clusters (id ∷ ids) best = elim (Dict.get id clusters) [
    | none ↦ best_from vector clusters ids best
    | some c ↦
        let cosine = cosine_similarity c.centroid vector in
        best_from vector clusters ids (elim best [
          | none ↦ some (c, cosine)
          | some (b, top) ↦ if lt top cosine then some (c, cosine) else some (b, top)
        ])
  ]

  -- The cluster of the phrase, or else a cluster that is similar enough.
  unfoldable pub similar : List V → ClusterManager V → Option (Cluster V)
  similar vector m = elim (best_from vector m.clusters (query (signature vector) m.index) none) [
    | none ↦ none
    | some (c, cosine) ↦ if le cfg.min_cosine cosine then some c else none
  ]

  unfoldable pub resolve_cluster : String → List V → ClusterManager V → Option (Cluster V)
  resolve_cluster phrase vector m = elim (Dict.get phrase m.phrase_to_cluster) [
    | none ↦ similar vector m
    | some id ↦ ite (text_discrete id "") (similar vector m) (Dict.get id m.clusters)
  ]

  unfoldable pub create_cluster : ExtractedPhrase → String → List V → ℕ → Cluster V
  create_cluster phrase id vector now = record {
    id = id;
    label = phrase.label;
    centroid = vector;
    phrases = phrase.key ∷ [];
    observations = 1;
    last_updated = now;
    sss = whole 0;
    novelty = whole 0;
    sources = [];
  }

  -- A cluster with one more phrase, and its vector blended with the phrase's.
  unfoldable pub merge_into : String → List V → Cluster V → Cluster V
  merge_into key vector c =
      let n = c.observations + 1 in
      record c {
        phrases = insert key c.phrases;
        observations = n;
        centroid = blend_vectors c.centroid vector (whole (min n cfg.merge_min_observations));
      }

  -- The cluster that an observation goes to, the phrases added, and the index after it: a new
  -- cluster, or the one that was found.
  unfoldable pub joined :
      ExtractedPhrase
      → String
      → List V
      → ℕ
      → ClusterManager V
      → Option (Cluster V)
      → Cluster V × List String × LshIndex
  joined phrase fresh vector now m none = (
    create_cluster phrase fresh vector now,
    phrase.key ∷ [],
    index.add fresh (signature vector) m.index,
  )
  joined phrase fresh vector now m (some c) =
      let c' = merge_into phrase.key vector c in
      (
        c',
        if mem phrase.key c.phrases then [] else phrase.key ∷ [],
        index.update c.id (signature c'.centroid) m.index,
      )

  abbrev scored : PhraseObservation V → BaselineSnapshot V → String → ℕ → Cluster V → Cluster V
  scored observation baseline platform now c = record c {
    sources = Dict.put platform now c.sources;
    sss = compute_sss observation baseline;
    novelty = compute_novelty observation baseline;
    last_updated = now;
  }

  -- What `observe` returns and leaves, of a phrase that has a vector.
  unfoldable pub observed :
      ExtractedPhrase
      → PhraseObservation V
      → BaselineSnapshot V
      → String
      → ℕ
      → String
      → ClusterManager V
      → ClusterUpdate V × ClusterManager V
  observed phrase observation baseline platform now fresh m =
      let vector = cfg.vectorizer phrase.key in
      let (c, added, index) =
        joined phrase fresh vector now m (resolve_cluster phrase.key vector m) in
      let c' = scored observation baseline platform now c in
      (
        record {
          topic_id = c'.id;
          label = c'.label;
          sss = c'.sss;
          decayed_sss = apply_recency_decay c'.sss c'.last_updated now;
          novelty = c'.novelty;
          sources = collect_sources c' now;
          added_phrases = added;
          window_seconds = cfg.window_duration_sec;
        },
        record {
          clusters = Dict.put c'.id c' m.clusters;
          phrase_to_cluster = Dict.put phrase.key c'.id m.phrase_to_cluster;
          index = index;
        },
      )

  -- `none` is the error of a phrase without a vector. `fresh` is what `crypto.randomUUID()` gives.
  unfoldable pub observe :
      ExtractedPhrase
      → PhraseObservation V
      → BaselineSnapshot V
      → String
      → ℕ
      → String
      → ClusterManager V
      → Option (ClusterUpdate V × ClusterManager V)
  observe phrase observation baseline platform now fresh m =
      if has_magnitude (cfg.vectorizer phrase.key)
      then some (observed phrase observation baseline platform now fresh m)
      else none

  -- `new Float32Array(dim)` with the first elements of the record.
  abbrev resized : ℕ → List V → List V
  resized zero xs = []
  resized (suc n) [] = whole 0 ∷ resized n []
  resized (suc n) (x ∷ xs) = fround x ∷ resized n xs

  abbrev link_all : String → List String → Dict String → Dict String
  link_all id [] m = m
  link_all id (phrase ∷ phrases) m = link_all id phrases (Dict.put phrase id m)

  unfoldable pub load : ℕ → TopicClusterRecord V → ClusterManager V → ClusterManager V
  load now r m =
      let centroid = resized cfg.embedding_dim (r.centroid or_else []) in
      let phrases = insert_all (r.phrases or_else []) [] in
      let c : Cluster V = record {
        id = r.topic_id;
        label = r.label;
        centroid = centroid;
        phrases = phrases;
        observations = max 1 (elim r.phrases [ none ↦ 1 | some ps ↦ length ps ]);
        last_updated = now;
        sss = r.sss or_else whole 0;
        novelty = r.novelty or_else whole 0;
        sources = [];
      } in
      record {
        clusters = Dict.put r.topic_id c m.clusters;
        phrase_to_cluster = link_all r.topic_id phrases m.phrase_to_cluster;
        index = index.add r.topic_id (signature centroid) m.index;
      }

  unfoldable pub bootstrap : List (TopicClusterRecord V) → ℕ → ClusterManager V → ClusterManager V
  bootstrap [] now m = m
  bootstrap (r ∷ rs) now m = bootstrap rs now (load now r m)

  unfoldable pub describe_cluster : String → ℕ → ClusterManager V → Option (ClusterUpdate V)
  describe_cluster topic_id now m = elim (Dict.get topic_id m.clusters) [
    | none ↦ none
    | some c ↦ some (record {
      topic_id = c.id;
      label = c.label;
      sss = c.sss;
      decayed_sss = apply_recency_decay c.sss c.last_updated now;
      novelty = c.novelty;
      sources = collect_sources c now;
      added_phrases = c.phrases;
      window_seconds = cfg.window_duration_sec;
    })
  ]
