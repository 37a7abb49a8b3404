-- ===== src/Narrative/Matcher/Topics.antt =====
-- services/narrative-miner/src/matcher.ts (`Matcher`). The cache of vectors, which repeats what the
-- vectorizer gave, is left out. A match runs the automaton on fuel; `none` means that it did not
-- suffice.
pub mod Choice
pub mod Cooldown
use trenches.Base.{
  ℕ, ◌+◌, ◌*◌, List, [], ◌∷◌, Option, none, some, Bool, true, false, not, ◌&&◌, ◌||◌, String, ltb,
  ◌==◌, ◌or_else◌, ◌>>=◌, if◌then◌else◌, map, length,
}
use trenches.Base.Dict
use trenches.Base.Dict.{Dict}
use trenches.Base.Sets.{same, mem, insert, insert_all, delete}
use trenches.Base.Best.{choose}
use trenches.Base.Number.{Number, whole}
use trenches.Narrative.Clusters.Vectors.{cosine_similarity}
use trenches.Narrative.Matcher.Automaton.{Node, Entry, create, search}

pub record ClusterDescriptor (V : Type 0) : Type 0 where
  pub topic_id : String
  pub label : String
  pub centroid : List V
  pub phrases : List String

pub record MatchResult (V : Type 0) : Type 0 where
  pub topic_id : String
  pub score : V
  pub cosine : V
  pub trie : V

-- The fields of a candidate that a match reads, with the empty text for a missing one.
pub record Candidate : Type 0 where
  pub mint : String
  pub name : String
  pub symbol : String

-- The configuration, the vectorizer, and the functions on texts that the class uses: the text in
-- lower case, its character codes, its length, and `name symbol` without the spaces at its ends.
pub record Settings (V : Type 0) : Type 0 where
  pub min_trie_score : V
  pub min_cosine : V
  pub boost_symbol_match : V
  pub cool_down_sec : ℕ
  pub vectorizer : String → List V
  pub to_lower_case : String → String
  pub codes : String → List ℕ
  pub size : String → ℕ
  pub search_text : String → String → String
  pub text_key : String → String → String

pub record Matcher (V : Type 0) : Type 0 where
  pub clusters : Dict (ClusterDescriptor V)
  pub phrase_to_topics : Dict (List String)
  pub cooldown : Dict ℕ
  pub automaton : Option (List (Node V))
  pub automaton_dirty : Bool

module _ {V : Type 0} (cfg : Settings V) where
  -- `for (const phrase of descriptor.phrases)` of `setCluster` and of `removeCluster`.
  unfoldable pub add_phrases : String → List String → Dict (List String) → Dict (List String)
  add_phrases topic [] m = m
  add_phrases topic (phrase ∷ rest) m =
      let key = cfg.to_lower_case phrase in
      add_phrases topic rest (Dict.put key (insert topic (Dict.get key m or_else [])) m)

  abbrev without : String → String → List String → Dict (List String) → Dict (List String)
  without topic key [] m = Dict.remove key m
  without topic key (t ∷ ts) m = Dict.put key (t ∷ ts) m

  unfoldable pub remove_phrases : String → List String → Dict (List String) → Dict (List String)
  remove_phrases topic [] m = m
  remove_phrases topic (phrase ∷ rest) m =
      let key = cfg.to_lower_case phrase in
      elim (Dict.get key m) [
        | none ↦ remove_phrases topic rest m
        | some bucket ↦ remove_phrases topic rest (without topic key (delete topic bucket) m)
      ]

  unfoldable pub set_cluster : ClusterDescriptor V → Matcher V → Matcher V
  set_cluster c m = record m {
    clusters = Dict.put c.topic_id (record c { phrases = insert_all c.phrases [] }) m.clusters;
    phrase_to_topics = add_phrases c.topic_id c.phrases m.phrase_to_topics;
    automaton_dirty = true;
  }

  unfoldable pub remove_cluster : String → Matcher V → Matcher V
  remove_cluster topic m = elim (Dict.get topic m.clusters) [
    | none ↦ m
    | some c ↦ record m {
      clusters = Dict.remove topic m.clusters;
      phrase_to_topics = remove_phrases topic c.phrases m.phrase_to_topics;
      automaton_dirty = true;
    }
  ]

  abbrev entry : String × List String → Entry
  entry (phrase, topics) = record {
    codes = cfg.codes phrase;
    size = cfg.size phrase;
    topic_ids = topics;
  }

-- The topics of the windows, once each.
abbrev pub active_topics : List String → List String
active_topics windows = insert_all windows []

module _ {V : Type 0} ⦃d : Number V⦄ (cfg : Settings V) where
  open d use {ratio, plus, times, lt, min}

  abbrev built : Matcher V → Option (List (Node V)) → Option (List (Node V) × Matcher V)
  built m none = none
  built m (some nodes) = some (nodes, record m { automaton = some nodes; automaton_dirty = false })

  unfoldable pub get_automaton : ℕ → Matcher V → Option (List (Node V) × Matcher V)
  get_automaton fuel m =
      let anew = built m (create fuel (map (entry cfg) m.phrase_to_topics)) in
      elim m.automaton [
        | none ↦ anew
        | some nodes ↦ if m.automaton_dirty then anew else some (nodes, m)
      ]

  abbrev passes : V → V → Bool
  passes cosine trie = not (lt cosine cfg.min_cosine && lt trie cfg.min_trie_score)

  abbrev pub symbol_boost : String → List String → V
  symbol_boost symbol phrases =
      if not (same symbol "") && mem symbol phrases then cfg.boost_symbol_match else whole 0

  abbrev pub label_bonus : String → String → V → V
  label_bonus name label score =
      if not (same name "") && same (cfg.to_lower_case label) name
      then plus score (ratio 5 100)
      else score

  -- One round of the loop of `matchCandidate`: the result for a topic, unless it is skipped.
  unfoldable pub score_topic :
      Dict (ClusterDescriptor V)
      → String
      → String
      → List V
      → Dict V
      → String
      → Option (MatchResult V)
  score_topic clusters name symbol vector trie_scores topic = elim (Dict.get topic clusters) [
    | none ↦ none
    | some c ↦
        let cosine = cosine_similarity c.centroid vector in
        let trie = min (whole 1) (Dict.get topic trie_scores or_else whole 0) in
        let sum =
          plus (plus (times (ratio 65 100) cosine) (times (ratio 3 10) trie))
            (symbol_boost symbol c.phrases) in
        if passes cosine trie
        then some (record {
          topic_id = topic;
          score = min (whole 1) (label_bonus name c.label sum);
          cosine = cosine;
          trie = trie;
        })
        else none
  ]

  -- `last && now - last < coolDownSec * 1000`, of a candidate that was matched before.
  unfoldable pub cools : ℕ → Option ℕ → Bool
  cools now none = false
  cools now (some last) = not (last == 0) && ltb now (last + cfg.cool_down_sec * 1000)

  abbrev pub settle : String → ℕ → Option (MatchResult V) → Matcher V → Matcher V
  settle mint now none m = m
  settle mint now (some best) m = record m { cooldown = Dict.put mint now m.cooldown }

  abbrev pub scored_by : Matcher V → Candidate → Dict V → String → Option (MatchResult V)
  scored_by m c =
      score_topic m.clusters (cfg.to_lower_case c.name) (cfg.to_lower_case c.symbol)
        (cfg.vectorizer (cfg.text_key c.name c.symbol))

  abbrev pub cooling : ℕ → Candidate → Matcher V → Bool
  cooling now c m = ltb 0 cfg.cool_down_sec && cools now (Dict.get c.mint m.cooldown)

  abbrev pub matched : Matcher V → Candidate → List String → Dict V → Option (MatchResult V)
  matched m c windows trie_scores =
      choose (λ (r : MatchResult V). r.score) (scored_by m c trie_scores) (active_topics windows)
        none

  -- Past the two early returns.
  unfoldable pub match_active :
      ℕ → Candidate → List String → ℕ → Matcher V → Option (Option (MatchResult V) × Matcher V)
  match_active fuel c windows now m = do
    (nodes, m') ← get_automaton fuel m
    trie_scores ←
        search fuel
          (cfg.codes (cfg.search_text (cfg.to_lower_case c.name) (cfg.to_lower_case c.symbol)))
          nodes
    some (matched m c windows trie_scores, settle c.mint now (matched m c windows trie_scores) m')

  unfoldable pub match_candidate :
      ℕ → Candidate → List String → ℕ → Matcher V → Option (Option (MatchResult V) × Matcher V)
  match_candidate fuel c windows now m =
      if cooling now c m
      then some (none, m)
      else if length windows == 0
      then some (none, m)
      else match_active fuel c windows now m
