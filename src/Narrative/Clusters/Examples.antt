-- ===== src/Narrative/Clusters/Examples.antt =====
-- Two ids with bands in the index, and a manager that meets its first phrase.
use trenches.Base.{◌≡◌, refl, List, [], ◌∷◌, none, some, true, arith}
use trenches.Base.Dict
use trenches.Base.Sets.{mem}
use trenches.Base.Number.{whole}
use trenches.Base.Fixed.{Fixed, fixed_number}
use trenches.Narrative.PhraseTracker.{PhraseObservation}
use trenches.Narrative.Clusters.Vectors.{has_magnitude}
use trenches.Narrative.Clusters.Index.{query}
use trenches.Narrative.Clusters.Index.Query.{
  Change, sets, removes, run, latest, shares, query-latest,
}
use trenches.Narrative.Clusters.Manager.{observe, observed}
use trenches.Narrative.Clusters.Model.{BaselineSnapshot, ClusterManager, ExtractedPhrase, Settings}
use trenches.Narrative.Clusters.Manager.Links.{IsLinked, has_phrase, observe-IsLinked}

abbrev changes : List Change
changes = sets "a" ("0:1" ∷ "1:0" ∷ []) ∷ removes "b" ∷ sets "b" ("0:1" ∷ []) ∷ []

query-latest_example :
    mem "a" (query ("1:0" ∷ []) (run changes)) ≡ shares ("1:0" ∷ []) (latest "a" changes)
query-latest_example = query-latest changes ("1:0" ∷ []) "a"

abbrev settings : Settings Fixed
settings = record {
  min_cosine = whole 1;
  merge_min_observations = 3;
  novelty_epsilon = whole 1;
  uniques_min = whole 2;
  recency_half_life_ms = whole 1000;
  baseline_window_minutes = whole 60;
  window_duration_sec = 300;
  embedding_dim = 1;
  vectorizer = λ text. whole 1 ∷ [];
  planes = ((whole 1 ∷ []) ∷ []) ∷ [];
  hex = λ band bits. "0:1";
  sort = λ xs. xs;
}

abbrev manager : ClusterManager Fixed
manager = record {
  clusters = [];
  phrase_to_cluster = [];
  index = record { buckets = []; signatures = [] };
}

manager-IsLinked : IsLinked settings manager
unfolding Dict.get mem
manager-IsLinked = record {
  keyed = λ id c h. absurd (ground (arith, h));
  linked = λ phrase id h. absurd (ground (arith, h));
  signed = λ id. refl;
  indexed = λ key id. refl;
}

abbrev phrase : ExtractedPhrase
phrase = record { key = "moon"; label = "Moon" }

abbrev observation : PhraseObservation Fixed
observation = record {
  phrase = "moon";
  timestamp = 7;
  posts_per_minute = 2;
  unique_authors = 1;
  average_engagement = whole 1;
  z_score = whole 1;
  recency_seconds = whole 0;
}

abbrev baseline : BaselineSnapshot Fixed
baseline = record { count = whole 1; engagement = whole 1; authors = whole 1 }

has_vector : has_magnitude (settings.vectorizer phrase.key) ≡ true
unfolding has_magnitude
has_vector = refl

fresh_id : Dict.get "id" manager.clusters ≡ none
unfolding Dict.get
fresh_id = refl

observe-IsLinked_example :
    let (u, m') = observed settings phrase observation baseline "x" 7 "id" manager in
    (observe settings phrase observation baseline "x" 7 "id" manager ≡ some (u, m'))
    × IsLinked settings m'
    × (Dict.get phrase.key m'.phrase_to_cluster ≡ some u.topic_id)
    × (has_phrase phrase.key (Dict.get u.topic_id m'.clusters) ≡ true)
observe-IsLinked_example =
    observe-IsLinked settings phrase observation baseline "x" 7 "id" manager has_vector fresh_id
      manager-IsLinked
