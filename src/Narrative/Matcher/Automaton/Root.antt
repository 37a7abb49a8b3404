-- ===== src/Narrative/Matcher/Automaton/Root.antt =====
-- The root has no node to fail to, and a search that has to leave it does not end.
use trenches.Base.{
  subst, sym, ◌∙◌, ℕ, zero, suc, ◌<◌, ◌≡◌, refl, List, [], ◌∷◌, ◌++◌, none, some, true, arith,
  length, length-append, Option-cases, Bool-cases, inl, inr,
}
use trenches.Base.Number.{Number}
use trenches.Narrative.Matcher.Automaton.{
  Node, Entry, is_alpha_numeric, blank, node_at, set_at, child, add_child, walk, build, descend,
  insert, insert_all, create, search_from, search,
}
use trenches.Narrative.Matcher.Automaton.Tree.{
  append-Below, AllBelow, IsRooted, IsRootedResult, node_at-Below, set_at-AllBelow,
  fail_to_root-IsRooted, link-IsRooted,
}

module _ {V : Type 0} where
  descend_hangs :
      (ch : ℕ) (nodes : List (Node V))
      → (node_at 0 nodes).fail ≡ none
      → child ch 0 nodes ≡ none
      → (fuel : ℕ) → descend fuel ch 0 nodes ≡ none
  unfolding descend
  descend_hangs ch nodes f c zero = refl
  descend_hangs ch nodes f c (suc fuel) = ground (arith, f, c, descend_hangs ch nodes f c fuel)

  append-AllBelow : (nodes : List (Node V)) → AllBelow nodes → AllBelow (nodes ++ (blank ∷ []))
  unfolding blank
  append-AllBelow [] h = (tt, tt)
  append-AllBelow (n ∷ ns) h = (h.0, append-AllBelow ns h.1)

  -- The root's failure is that of the node put in its place.
  set_at-fail :
      (i : ℕ) (x : Node V) (nodes : List (Node V))
      → x.fail ≡ (node_at i nodes).fail
      → (node_at 0 (set_at i x nodes)).fail ≡ (node_at 0 nodes).fail
  unfolding set_at node_at
  set_at-fail i x [] e = refl
  set_at-fail zero x (n ∷ ns) e = e
  set_at-fail (suc i) x (n ∷ ns) e = refl

  append-fail :
      (nodes : List (Node V)) → (node_at 0 (nodes ++ (blank ∷ []))).fail ≡ (node_at 0 nodes).fail
  unfolding node_at
  append-fail [] = refl
  append-fail (n ∷ ns) = refl

  add_child-IsRooted :
      (ch i : ℕ) (nodes : List (Node V))
      → 0 < length nodes
      → IsRooted nodes
      → IsRooted (add_child ch i nodes)
  unfolding add_child
  add_child-IsRooted ch i nodes p (b, f) = (
    append-AllBelow _ (
        set_at-AllBelow i _ nodes (append-Below _ ch (length nodes) p (node_at-Below i nodes b)) b),
    append-fail _ ∙ set_at-fail i _ nodes refl ∙ f,
  )

  length-set_at :
      (i : ℕ) (x : Node V) (nodes : List (Node V)) → length (set_at i x nodes) ≡ length nodes
  unfolding set_at
  length-set_at i x [] = refl
  length-set_at zero x (n ∷ ns) = refl
  length-set_at (suc i) x (n ∷ ns) = ground (arith, length-set_at i x ns)

  length-append_pos : (nodes : List (Node V)) → 0 < length (nodes ++ (blank ∷ []))
  length-append_pos nodes = omega (arith, length-append nodes (blank ∷ []))

  -- There is a root, and the references are as above.
  abbrev IsTree : List (Node V) → Type 0
  IsTree nodes = (0 < length nodes) × IsRooted nodes

  add_child-IsTree :
      (ch i : ℕ) (nodes : List (Node V)) → IsTree nodes → IsTree (add_child ch i nodes)
  unfolding add_child
  add_child-IsTree ch i nodes (p, r) = (length-append_pos _, add_child-IsRooted ch i nodes p r)

  walk-IsTree :
      (codes : List ℕ) (i : ℕ) (nodes : List (Node V))
      → IsTree nodes
      → IsTree (walk codes i nodes).1
  unfolding walk
  walk-IsTree [] i nodes r = r
  walk-IsTree (ch ∷ codes) i nodes r = elim (Bool-cases (is_alpha_numeric ch)) [
    | inl e ↦ elim (Option-cases (child ch i nodes)) [
      | inl c ↦ rw (walk, e, c) (walk-IsTree codes (length nodes) _ (add_child-IsTree ch i nodes r))
      | inr (n, c) ↦ rw (walk, e, c) (walk-IsTree codes n nodes r)
    ]
    | inr e ↦ rw (walk, e) (walk-IsTree codes i nodes r)
  ]

module _ {V : Type 0} ⦃d : Number V⦄ where
  insert-IsTree : (e : Entry) (nodes : List (Node V)) → IsTree nodes → IsTree (insert e nodes)
  unfolding insert
  insert-IsTree e nodes r =
      let (i, nodes') = walk e.codes 0 nodes in
      let (p, r') = walk-IsTree e.codes 0 nodes r in
      (
        subst (λ n. 0 < n) (sym (length-set_at i _ nodes')) p,
        (
          set_at-AllBelow i _ nodes' (node_at-Below i nodes' r'.0) r'.0,
          set_at-fail i _ nodes' refl ∙ r'.1,
        ),
      )

  insert_all-IsTree :
      (es : List Entry) (nodes : List (Node V)) → IsTree nodes → IsTree (insert_all es nodes)
  unfolding insert_all
  insert_all-IsTree [] nodes r = r
  insert_all-IsTree (e ∷ es) nodes r =
      insert_all-IsTree es (insert e nodes) (insert-IsTree e nodes r)

  create-IsRooted :
      (fuel : ℕ) (entries : List Entry) (nodes : List (Node V))
      → create fuel entries ≡ some nodes
      → IsRooted nodes
  unfolding create build blank node_at
  create-IsRooted fuel entries nodes made =
      let start : List (Node V) = insert_all entries (blank ∷ []) in
      let (p, r) = insert_all-IsTree entries (blank ∷ []) (omega arith, ((tt, tt), refl)) in
      let below = (node_at 0 start).children in
      let rooted = fail_to_root-IsRooted below start (node_at-Below 0 start r.0) r in
      subst IsRootedResult made (link-IsRooted fuel _ _ rooted)

  -- An automaton whose root has no child for the first letter or digit of a text does not come to
  -- an end with the text: no number of steps suffices.
  pub search_hangs :
      (entries : List Entry) (enough : ℕ) (nodes : List (Node V)) (ch : ℕ) (text : List ℕ)
      → create enough entries ≡ some nodes
      → is_alpha_numeric ch ≡ true
      → child ch 0 nodes ≡ none
      → (fuel : ℕ) → search fuel (ch ∷ text) nodes ≡ none
  unfolding search search_from
  search_hangs entries enough nodes ch text made alpha missing fuel =
      let (b, f) = create-IsRooted enough entries nodes made in
      rw (search, search_from, alpha, descend_hangs ch nodes f missing fuel) refl
