-- ===== src/Narrative/Matcher/Automaton/Tree.antt =====
-- The references between the nodes, which linking keeps: no child is the root, and the root fails to no
-- node.
use trenches.Base.{
  subst, ℕ, zero, suc, ◌<◌, ◌≡◌, refl, List, [], ◌∷◌, ◌++◌, Option, none, some, String, arith, All,
  Option-cases, inl, inr,
}
use trenches.Narrative.Matcher.Automaton.{
  Node, blank, node_at, set_at, set_fail, fail_to_root, fall_back, link_children, link, fail_target,
}

-- No child is the root.
abbrev pub Below : List (ℕ × ℕ) → Type 0
Below = All (λ (c : ℕ × ℕ). 0 < c.1)

pub append-Below :
    (below : List (ℕ × ℕ)) (ch i : ℕ) → 0 < i → Below below → Below (below ++ ((ch, i) ∷ []))
append-Below [] ch i p h = (p, tt)
append-Below (c ∷ cs) ch i p h = (h.0, append-Below cs ch i p h.1)

module _ {V : Type 0} where
  abbrev pub AllBelow : List (Node V) → Type 0
  AllBelow = All (λ (n : Node V). Below n.children)

  abbrev pub IsRooted : List (Node V) → Type 0
  IsRooted nodes = AllBelow nodes × ((node_at 0 nodes).fail ≡ none)

  pub node_at-Below :
      (i : ℕ) (nodes : List (Node V)) → AllBelow nodes → Below (node_at i nodes).children
  unfolding node_at blank
  node_at-Below i [] h = tt
  node_at-Below zero (n ∷ ns) h = h.0
  node_at-Below (suc i) (n ∷ ns) h = node_at-Below i ns h.1

  pub set_at-AllBelow :
      (i : ℕ) (x : Node V) (nodes : List (Node V))
      → Below x.children
      → AllBelow nodes
      → AllBelow (set_at i x nodes)
  unfolding set_at
  set_at-AllBelow i x [] b h = tt
  set_at-AllBelow zero x (n ∷ ns) b h = (b, h.1)
  set_at-AllBelow (suc i) x (n ∷ ns) b h = (h.0, set_at-AllBelow i x ns b h.1)

  -- The root keeps its failure when a node gets another that is not the root, or the same one.
  set_at-root :
      (i : ℕ) (x : Node V) (nodes : List (Node V))
      → 0 < i
      → (node_at 0 (set_at i x nodes)) ≡ node_at 0 nodes
  unfolding set_at node_at
  set_at-root i x [] h = refl
  set_at-root zero x (n ∷ ns) h = absurd (omega arith)
  set_at-root (suc i) x (n ∷ ns) h = refl

  set_fail-IsRooted :
      (i : ℕ) (target : Option ℕ) (outputs : List (String × V)) (nodes : List (Node V))
      → 0 < i
      → IsRooted nodes
      → IsRooted (set_fail i target outputs nodes)
  unfolding set_fail
  set_fail-IsRooted i target outputs nodes h (b, f) = (
    set_at-AllBelow i _ nodes (node_at-Below i nodes b) b,
    ground (
      arith,
      set_at-root i
          (record (node_at i nodes) {
            fail = target;
            outputs = (node_at i nodes).outputs ++ outputs;
          })
          nodes h,
      f,
    ),
  )

  abbrev pub IsRootedResult : Option (List (Node V)) → Type 0
  IsRootedResult none = Unit
  IsRootedResult (some nodes) = IsRooted nodes

  pub fail_to_root-IsRooted :
      (below : List (ℕ × ℕ)) (nodes : List (Node V))
      → Below below
      → IsRooted nodes
      → IsRooted (fail_to_root below nodes)
  unfolding fail_to_root
  fail_to_root-IsRooted [] nodes b r = r
  fail_to_root-IsRooted ((ch, i) ∷ rest) nodes b r =
      fail_to_root-IsRooted rest _ b.1 (set_fail-IsRooted i (some 0) [] nodes b.0 r)

  link_children-IsRooted :
      (fuel i : ℕ) (below : List (ℕ × ℕ)) (nodes : List (Node V))
      → Below below
      → IsRooted nodes
      → IsRootedResult (link_children fuel i below nodes)
  unfolding link_children
  link_children-IsRooted fuel i [] nodes b r = r
  link_children-IsRooted fuel i ((ch, n) ∷ rest) nodes b r =
      elim (fall_back fuel ch (node_at i nodes).fail nodes)
        as (λ o. IsRootedResult (elim o [
          | none ↦ none
          | some fallback ↦
              let target = fail_target ch fallback nodes in
              link_children fuel i rest
                (set_fail n (some target) (node_at target nodes).outputs nodes)
        ])) [
          | none ↦ tt
          | some fallback ↦
              link_children-IsRooted fuel i rest _ b.1 (set_fail-IsRooted n _ _ nodes b.0 r)
        ]

  pub link-IsRooted :
      (fuel : ℕ) (queue : List ℕ) (nodes : List (Node V))
      → IsRooted nodes
      → IsRootedResult (link fuel queue nodes)
  unfolding link
  link-IsRooted fuel [] nodes r = r
  link-IsRooted zero (i ∷ queue) nodes r = tt
  link-IsRooted (suc fuel) (i ∷ queue) nodes r =
      let below = (node_at i nodes).children in
      let linked = link_children-IsRooted (suc fuel) i below nodes (node_at-Below i nodes r.0) r in
      elim (Option-cases (link_children (suc fuel) i below nodes)) [
        | inl e ↦ rw (link, e) tt
        | inr (nodes', e) ↦
            rw (link, e) (link-IsRooted fuel _ nodes' (subst IsRootedResult e linked))
      ]
