-- ===== src/Narrative/Matcher/Topics/Choice.antt =====
-- The topic that a match chooses.
use trenches.Base.{
  ap, ℕ, ◌≡◌, refl, ◌∙◌, List, [], ◌∷◌, Option, none, some, true, false, String, arith,
  Option-cases, inl, inr, text_discrete, length, ◌==◌,
}
use trenches.Base.Dict
use trenches.Base.Dict.{Dict}
use trenches.Base.Sets.{mem, mem-insert_all}
use trenches.Base.Best.{IsIn, IsBelow, IsNumberResult, IsFrom, choose-IsBelow, choose-IsFrom}
use trenches.Base.Number.{Number, IsOrdered}
use trenches.Narrative.Matcher.Automaton.{Node, search}
use trenches.Narrative.Matcher.Topics.{
  ClusterDescriptor, MatchResult, Candidate, Settings, Matcher, score_topic, matched, scored_by,
  active_topics, cooling, settle, get_automaton, match_active, match_candidate,
}

IsIn-mem : (t : String) (ts : List String) → mem t ts ≡ true → IsIn t ts
unfolding mem
IsIn-mem t [] h = absurd (ground (arith, h))
IsIn-mem t (x ∷ ts) h = elim (text_discrete x t) [
  | yes e ↦ inl e
  | no n ↦ inr (IsIn-mem t ts (ground (arith, h, n)))
]

mem-IsIn : (t : String) (ts : List String) → IsIn t ts → mem t ts ≡ true
unfolding mem
mem-IsIn t [] h = elim h [ ]
mem-IsIn t (x ∷ ts) (inl e) = ground (arith, e)
mem-IsIn t (x ∷ ts) (inr h) = ground (arith, mem-IsIn t ts h)

abbrev pub score_of : {V : Type 0} → MatchResult V → V
score_of r = r.score

module _ {V : Type 0} ⦃d : Number V⦄ (cfg : Settings V) where
  topic_id-score_topic :
      (clusters : Dict (ClusterDescriptor V)) (name symbol : String) (vector : List V)
      (tries : Dict V) (t : String) (r : MatchResult V)
      → score_topic cfg clusters name symbol vector tries t ≡ some r
      → r.topic_id ≡ t
  unfolding score_topic
  topic_id-score_topic clusters name symbol vector tries t r e =
      elim (Option-cases (Dict.get t clusters)) [
        | inl n ↦ ground (arith, n, e)
        | inr (c, n) ↦ ground (arith, n, e)
      ]

  -- The result that its own topic has, which is one of the windows'.
  abbrev pub IsOfWindow :
      (String → Option (MatchResult V)) → List String → Option (MatchResult V) → Type 0
  IsOfWindow scored windows none = Unit
  IsOfWindow scored windows (some r) =
      (mem r.topic_id windows ≡ true) × (scored r.topic_id ≡ some r)

  IsFrom-IsOfWindow :
      (m : Matcher V) (c : Candidate) (windows : List String) (tries : Dict V)
      (o : Option (MatchResult V))
      → IsFrom (scored_by cfg m c tries) (active_topics windows) o
      → IsOfWindow (scored_by cfg m c tries) windows o
  unfolding mem
  IsFrom-IsOfWindow m c windows tries none h = tt
  IsFrom-IsOfWindow m c windows tries (some r) (t, k, e) =
      let same = topic_id-score_topic m.clusters _ _ _ tries t r e in
      (
        ground (arith, same, mem-IsIn t (active_topics windows) k, mem-insert_all t windows []),
        ap (scored_by cfg m c tries) same ∙ e,
      )

module _ {V : Type 0} ⦃d : Number V⦄ (laws : IsOrdered V) (cfg : Settings V) where
  -- Past the early returns, when the automaton comes to an end and all scores are numbers, a match
  -- gives the result of one of the topics of the windows, and no topic of the windows that passes
  -- has a higher score; there is a result if one passes.
  pub match_candidate-IsBelow :
      (fuel now : ℕ) (c : Candidate) (windows : List String) (m m' : Matcher V)
      (nodes : List (Node V)) (tries : Dict V)
      → cooling cfg now c m ≡ false
      → (length windows == 0) ≡ false
      → get_automaton cfg fuel m ≡ some (nodes, m')
      → search fuel
          (cfg.codes (cfg.search_text (cfg.to_lower_case c.name) (cfg.to_lower_case c.symbol)))
          nodes
        ≡ some tries
      → ((t : String) → IsNumberResult laws score_of (scored_by cfg m c tries t))
      → (best : Option (MatchResult V)) × (m'' : Matcher V) × (match_candidate cfg fuel c windows
            now m
          ≡ some (best, m''))
        × IsOfWindow cfg (scored_by cfg m c tries) windows best
        × ((t : String)
            → mem t windows ≡ true
            → IsBelow laws score_of (scored_by cfg m c tries t) best)
  unfolding match_candidate match_active mem
  match_candidate-IsBelow fuel now c windows m m' nodes tries warm some_there made found numbers =
      let best = matched cfg m c windows tries in
      let topics = active_topics windows in
      let scored = scored_by cfg m c tries in
      (
        best,
        settle cfg c.mint now best m',
        rw (warm, some_there, match_active, made, found) refl,
        IsFrom-IsOfWindow cfg m c windows tries best (choose-IsFrom score_of scored topics),
        (λ t k.
            (choose-IsBelow laws score_of scored topics none numbers tt).1 t
              (IsIn-mem t topics (ground (arith, k, mem-insert_all t windows [])))),
      )
