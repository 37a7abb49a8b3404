-- ===== src/Narrative/Matcher/Examples.antt =====
-- The phrase "ab" of one topic, and a candidate of that name.
use trenches.Base.{
  ◌≡◌, refl, List, [], ◌∷◌, Option, none, some, true, false, String, text_discrete, arith, subst,
}
use trenches.Base.Dict
use trenches.Base.Dict.{Dict}
use trenches.Base.Sets.{mem, insert, insert_all}
use trenches.Base.Best.{IsBelow, IsNumberResult, choose}
use trenches.Base.Number.{whole}
use trenches.Base.Fixed.{Fixed, fixed_number, Fixed-IsOrdered}
use trenches.Narrative.Clusters.Vectors.{cosine_similarity}
use trenches.Narrative.Matcher.Automaton
use trenches.Narrative.Matcher.Automaton.{Node, Entry, is_alpha_numeric, child, create, search}
use trenches.Narrative.Matcher.Automaton.Root.{search_hangs}
use trenches.Narrative.Matcher.Topics.{
  MatchResult, Candidate, Settings, Matcher, score_topic, cools, cooling, scored_by, get_automaton,
  match_active, match_candidate, remove_cluster,
}
use trenches.Narrative.Matcher.Topics.Choice.{score_of, IsOfWindow, match_candidate-IsBelow}
use trenches.Narrative.Matcher.Topics.Cooldown
use trenches.Narrative.Matcher.Topics.Cooldown.{
  Call, matches, removes_cluster, match_candidate-cools,
}

abbrev entries : List Entry
entries = record { codes = 97 ∷ 98 ∷ []; size = 2; topic_ids = "topic" ∷ [] } ∷ []

-- The root, and the nodes of "a" and of "ab".
abbrev nodes : List (Node Fixed)
nodes =
    record { children = (97, 1) ∷ []; fail = none; outputs = [] }
    ∷ record { children = (98, 2) ∷ []; fail = some 0; outputs = [] }
    ∷ record {
      children = [];
      fail = some 0;
      outputs = ("topic", fixed_number.over (whole 2) (whole 12)) ∷ [];
    }
    ∷ []

made : create 3 entries ≡ some nodes
unfolding create Automaton.build Automaton.insert_all Automaton.insert Automaton.walk Automaton.link
    Automaton.link_children Automaton.fall_back Automaton.fail_to_root Automaton.set_fail
    Automaton.set_at Automaton.node_at Automaton.blank Automaton.add_child Automaton.child_of
made = refl

no_z : child 122 0 nodes ≡ none
unfolding Automaton.node_at Automaton.child_of
no_z = refl

search_hangs_example : search 100 (122 ∷ []) nodes ≡ none
search_hangs_example = search_hangs entries 3 nodes 122 [] made refl no_z 100

abbrev settings : Settings Fixed
settings = record {
  min_trie_score = whole 0;
  min_cosine = whole 0;
  boost_symbol_match = whole 0;
  cool_down_sec = 60;
  vectorizer = λ text. whole 1 ∷ [];
  to_lower_case = λ s. s;
  codes = λ s. 97 ∷ 98 ∷ [];
  size = λ s. 2;
  search_text = λ name symbol. name;
  text_key = λ name symbol. name;
}

abbrev matcher : Matcher Fixed
matcher = record {
  clusters =
      (
        "topic",
        record { topic_id = "topic"; label = "Ab"; centroid = whole 1 ∷ []; phrases = "ab" ∷ [] },
      )
      ∷ [];
  phrase_to_topics = ("ab", "topic" ∷ []) ∷ [];
  cooldown = [];
  automaton = some nodes;
  automaton_dirty = false;
}

abbrev candidate : Candidate
candidate = record { mint = "Mint"; name = "ab"; symbol = "" }

abbrev tries : Dict Fixed
tries = ("topic", fixed_number.plus (whole 0) (fixed_number.over (whole 2) (whole 12))) ∷ []

found : search 3 (97 ∷ 98 ∷ []) nodes ≡ some tries
unfolding search Automaton.search_from Automaton.descend Automaton.node_at Automaton.child_of
    Dict.get Dict.put
found = refl

ready : get_automaton settings 3 matcher ≡ some (nodes, matcher)
unfolding get_automaton
ready = refl

warm : cooling settings 7 candidate matcher ≡ false
unfolding cools Dict.get
warm = refl

abbrev IsNumberAt : String → Type 0
IsNumberAt t =
    IsNumberResult Fixed-IsOrdered score_of (scored_by settings matcher candidate tries t)

topic_number : IsNumberAt "topic"
unfolding score_topic Dict.get cosine_similarity mem text_discrete
topic_number = refl

other_number : (t : String) → Dict.get t matcher.clusters ≡ none → IsNumberAt t
unfolding score_topic
other_number t e = rw (score_topic, e) tt

scores_numbers : (t : String) → IsNumberAt t
unfolding Dict.get
scores_numbers t = elim (text_discrete "topic" t) [
  | yes e ↦ subst IsNumberAt e topic_number
  | no n ↦ other_number t (ground (arith, n))
]

match_candidate-IsBelow_example :
    (best : Option (MatchResult Fixed)) × (m'' : Matcher Fixed) × (match_candidate settings 3
        candidate
        ("topic" ∷ [])
        7
        matcher
      ≡ some (best, m''))
    × IsOfWindow settings (scored_by settings matcher candidate tries) ("topic" ∷ []) best
    × ((t : String)
        → mem t ("topic" ∷ []) ≡ true
        → IsBelow Fixed-IsOrdered score_of (scored_by settings matcher candidate tries t) best)
match_candidate-IsBelow_example =
    match_candidate-IsBelow Fixed-IsOrdered settings 3 7 candidate ("topic" ∷ []) matcher matcher
      nodes tries warm refl ready found scores_numbers

abbrev best : MatchResult Fixed
best = record {
  topic_id = "topic";
  score =
      fixed_number.plus
        (fixed_number.plus (fixed_number.times (fixed_number.ratio 65 100) (whole 1))
          (fixed_number.times (fixed_number.ratio 3 10) (fixed_number.over (whole 2) (whole 12))))
        (whole 0);
  cosine = whole 1;
  trie = fixed_number.over (whole 2) (whole 12);
}

abbrev cooled : Matcher Fixed
cooled = record matcher { cooldown = ("Mint", 7) ∷ [] }

first_match :
    match_candidate settings 3 candidate ("topic" ∷ []) 7 matcher ≡ some (some best, cooled)
unfolding match_candidate match_active get_automaton cools search Automaton.search_from
    Automaton.descend Automaton.node_at Automaton.child_of Dict.get Dict.put choose score_topic
    cosine_similarity mem insert_all insert text_discrete
first_match = refl

-- In between another mint is matched, and the cluster is removed.
abbrev other_candidate : Candidate
other_candidate = record candidate { mint = "Other" }

abbrev between : List (Call settings)
between = matches 3 8 other_candidate ("topic" ∷ []) ∷ removes_cluster "none" ∷ []

abbrev cooled_both : Matcher Fixed
cooled_both = record matcher { cooldown = ("Mint", 7) ∷ ("Other", 8) ∷ [] }

runs_between : Cooldown.run settings between cooled ≡ some cooled_both
unfolding Cooldown.run Cooldown.call remove_cluster match_candidate match_active get_automaton cools
    search Automaton.search_from Automaton.descend Automaton.node_at Automaton.child_of Dict.get
    Dict.put choose score_topic cosine_similarity mem insert_all insert text_discrete
runs_between = refl

match_candidate-cools_example :
    match_candidate settings 3 candidate ("other" ∷ []) 60006 cooled_both ≡ some (none, cooled_both)
match_candidate-cools_example =
    match_candidate-cools settings 3 3 7 60006 candidate candidate ("topic" ∷ []) ("other" ∷ [])
      matcher cooled cooled_both best between first_match runs_between (omega arith, (tt, tt))
      (λ e. absurd (omega (arith, e))) refl (omega arith) (omega arith)
