-- ===== src/Narrative/Matcher/Automaton.antt =====
-- services/narrative-miner/src/matcher.ts (`AhoCorasick`). A text is the list of its character codes
-- in lower case. The nodes are objects that refer to each other: they stand in a list, and a
-- reference is a place in it, with the root at 0. The loops along the references run on fuel;
-- `none` means that it did not suffice.
pub mod Tree
pub mod Root
use trenches.Base.{
  ℕ, zero, suc, ◌+◌, List, [], ◌∷◌, ◌++◌, Option, none, some, Bool, true, false, not, ◌&&◌, ◌||◌,
  String, leb, ◌==◌, if◌then◌else◌, ◌or_else◌, length, map,
}
use trenches.Base.Dict
use trenches.Base.Dict.{Dict}
use trenches.Base.Number.{Number, whole}

pub record Node (V : Type 0) : Type 0 where
  pub children : List (ℕ × ℕ)
  pub fail : Option ℕ
  pub outputs : List (String × V)

-- A phrase: its codes, its length, and its topics.
pub record Entry : Type 0 where
  pub codes : List ℕ
  pub size : ℕ
  pub topic_ids : List String

abbrev pub is_alpha_numeric : ℕ → Bool
is_alpha_numeric code = (leb 48 code && leb code 57) || (leb 97 code && leb code 122)

unfoldable pub child_of : ℕ → List (ℕ × ℕ) → Option ℕ
child_of ch [] = none
child_of ch ((c, n) ∷ rest) = let later = child_of ch rest in if c == ch then some n else later

module _ {V : Type 0} where
  unfoldable pub blank : Node V
  blank = record { children = []; fail = none; outputs = [] }

  unfoldable pub node_at : ℕ → List (Node V) → Node V
  node_at i [] = blank
  node_at zero (n ∷ ns) = n
  node_at (suc i) (n ∷ ns) = node_at i ns

  unfoldable pub set_at : ℕ → Node V → List (Node V) → List (Node V)
  set_at i x [] = []
  set_at zero x (n ∷ ns) = x ∷ ns
  set_at (suc i) x (n ∷ ns) = n ∷ set_at i x ns

  abbrev pub child : ℕ → ℕ → List (Node V) → Option ℕ
  child ch i nodes = child_of ch (node_at i nodes).children

  -- A new node at the end, as the child of a node.
  unfoldable pub add_child : ℕ → ℕ → List (Node V) → List (Node V)
  add_child ch i nodes =
      let n = node_at i nodes in
      set_at i (record n { children = n.children ++ ((ch, length nodes) ∷ []) }) nodes
      ++ (blank ∷ [])

  -- The loop of `insert`: the node of the phrase, and the nodes after it.
  unfoldable pub walk : List ℕ → ℕ → List (Node V) → ℕ × List (Node V)
  walk [] i nodes = (i, nodes)
  walk (ch ∷ codes) i nodes = elim (is_alpha_numeric ch) [
    | false ↦ walk codes i nodes
    | true ↦ elim (child ch i nodes) [
      | some n ↦ walk codes n nodes
      | none ↦ walk codes (length nodes) (add_child ch i nodes)
    ]
  ]

  unfoldable pub set_fail : ℕ → Option ℕ → List (String × V) → List (Node V) → List (Node V)
  set_fail i target outputs nodes =
      let n = node_at i nodes in
      set_at i (record n { fail = target; outputs = n.outputs ++ outputs }) nodes

  -- The children of the root, which fail to the root.
  unfoldable pub fail_to_root : List (ℕ × ℕ) → List (Node V) → List (Node V)
  fail_to_root [] nodes = nodes
  fail_to_root ((ch, i) ∷ rest) nodes = fail_to_root rest (set_fail i (some 0) [] nodes)

  -- `while (fallback && !fallback.children.has(ch)) fallback = fallback.fail`.
  unfoldable pub fall_back : ℕ → ℕ → Option ℕ → List (Node V) → Option (Option ℕ)
  fall_back fuel ch none nodes = some none
  fall_back zero ch (some i) nodes = none
  fall_back (suc fuel) ch (some i) nodes = elim (child ch i nodes) [
    | some n ↦ some (some i)
    | none ↦ fall_back fuel ch (node_at i nodes).fail nodes
  ]

  abbrev pub fail_target : ℕ → Option ℕ → List (Node V) → ℕ
  fail_target ch none nodes = 0
  fail_target ch (some i) nodes = child ch i nodes or_else 0

  -- The children of one node of the queue.
  unfoldable pub link_children : ℕ → ℕ → List (ℕ × ℕ) → List (Node V) → Option (List (Node V))
  link_children fuel i [] nodes = some nodes
  link_children fuel i ((ch, n) ∷ rest) nodes =
      elim (fall_back fuel ch (node_at i nodes).fail nodes) [
        | none ↦ none
        | some fallback ↦
            let target = fail_target ch fallback nodes in
            link_children fuel i rest
              (set_fail n (some target) (node_at target nodes).outputs nodes)
      ]

  -- The loop of `build` over its queue.
  unfoldable pub link : ℕ → List ℕ → List (Node V) → Option (List (Node V))
  link fuel [] nodes = some nodes
  link zero (i ∷ queue) nodes = none
  link (suc fuel) (i ∷ queue) nodes =
      let below = (node_at i nodes).children in
      elim (link_children (suc fuel) i below nodes) [
        | none ↦ none
        | some nodes' ↦ link fuel (queue ++ map (λ (c : ℕ × ℕ). c.1) below) nodes'
      ]

  unfoldable pub build : ℕ → List (Node V) → Option (List (Node V))
  build fuel nodes =
      let below = (node_at 0 nodes).children in
      link fuel (map (λ (c : ℕ × ℕ). c.1) below) (fail_to_root below nodes)

  -- `while (node && !node.children.has(ch)) node = node.fail ?? this.root`.
  unfoldable pub descend : ℕ → ℕ → ℕ → List (Node V) → Option ℕ
  descend zero ch i nodes = none
  descend (suc fuel) ch i nodes = elim (child ch i nodes) [
    | some n ↦ some i
    | none ↦ descend fuel ch ((node_at i nodes).fail or_else 0) nodes
  ]

module _ {V : Type 0} ⦃d : Number V⦄ where
  open d use {ratio, plus, over, min, max}

  unfoldable pub insert : Entry → List (Node V) → List (Node V)
  insert e nodes =
      let (i, nodes') = walk e.codes 0 nodes in
      let n = node_at i nodes' in
      let weight = max (ratio 1 10) (min (whole 1) (over (whole e.size) (whole 12))) in
      set_at i (record n { outputs = n.outputs ++ map (λ (t : String). (t, weight)) e.topic_ids })
        nodes'

  unfoldable pub insert_all : List Entry → List (Node V) → List (Node V)
  insert_all [] nodes = nodes
  insert_all (e ∷ es) nodes = insert_all es (insert e nodes)

  -- The constructor.
  unfoldable pub create : ℕ → List Entry → Option (List (Node V))
  create fuel entries = build fuel (insert_all entries (blank ∷ []))

  abbrev credit : List (String × V) → Dict V → Dict V
  credit [] results = results
  credit ((topic, weight) ∷ rest) results =
      credit rest (Dict.put topic (plus (Dict.get topic results or_else whole 0) weight) results)

  unfoldable pub search_from : ℕ → List ℕ → ℕ → List (Node V) → Dict V → Option (Dict V)
  search_from fuel [] i nodes results = some results
  search_from fuel (ch ∷ text) i nodes results = elim (is_alpha_numeric ch) [
    | false ↦ search_from fuel text i nodes results
    | true ↦ elim (descend fuel ch i nodes) [
      | none ↦ none
      | some j ↦
          let next = child ch j nodes or_else 0 in
          search_from fuel text next nodes (credit (node_at next nodes).outputs results)
    ]
  ]

  unfoldable pub search : ℕ → List ℕ → List (Node V) → Option (Dict V)
  search fuel text nodes = search_from fuel text 0 nodes []
