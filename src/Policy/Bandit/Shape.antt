-- ===== src/Policy/Bandit/Shape.antt =====
-- The matrices of the arms keep their size.
use trenches.Base.{
  Bool, ℕ, zero, suc, ◌≤◌, ◌≡◌, refl, ap, ◌∙◌, sym, List, [], ◌∷◌, Option, none, some, ◌&&◌, String,
  ◌==◌, length, map, arith, Option-cases, Bool-cases, inl, inr, text_discrete, subst, if_cases,
}
use trenches.Base.Dict
use trenches.Base.Dict.{Dict}
use trenches.Base.Number.{Number}
use trenches.Policy.Bandit.{
  BanditAction, ArmState, LinUcbBandit, subtract_row, subtract_matrices, multiply_matrix_vector,
  outer_product, scale_matrix, add_reward, learn, blank, dot, range, identity_row, get_state,
  load_rows, add_missing, create, visit, select, update,
}

length-map : {A B : Type 0} (f : A → B) (xs : List A) → length (map f xs) ≡ length xs
length-map f [] = refl
length-map f (x ∷ xs) = ap suc (length-map f xs)

length-range : (n m : ℕ) → length (range n m) ≡ m
length-range n zero = refl
length-range n (suc m) = ap suc (length-range (suc n) m)

module _ {V : Type 0} ⦃d : Number V⦄ where
  -- The lengths of the rows and of the vector.
  abbrev pub shape : ArmState V → List ℕ × ℕ
  shape arm = (map (λ (row : List V). length row) arm.ainv, length arm.b)

  length-subtract_row : (xs ys : List V) → length (subtract_row xs ys) ≡ length xs
  unfolding subtract_row
  length-subtract_row [] bs = refl
  length-subtract_row (a ∷ more) [] = ap suc (length-subtract_row more [])
  length-subtract_row (a ∷ more) (b ∷ bs) = ap suc (length-subtract_row more bs)

  length-add_reward : (reward : V) (xs cs : List V) → length (add_reward reward xs cs) ≡ length xs
  unfolding add_reward
  length-add_reward reward [] cs = refl
  length-add_reward reward (x ∷ xs) [] = ap suc (length-add_reward reward xs [])
  length-add_reward reward (x ∷ xs) (c ∷ cs) = ap suc (length-add_reward reward xs cs)

  subtract_matrices-total :
      (a b : List (List V))
      → length a ≤ length b
      → (c : List (List V)) × (subtract_matrices a b ≡ some c)
        × (map (λ (row : List V). length row) c ≡ map (λ (row : List V). length row) a)
  unfolding subtract_matrices
  subtract_matrices-total [] b h = ([], refl, refl)
  subtract_matrices-total (r ∷ rs) [] h = absurd (omega (arith, h))
  subtract_matrices-total (r ∷ rs) (b ∷ bs) h =
      let (c, e, s) = subtract_matrices-total rs bs (omega (arith, h)) in
      (subtract_row r b ∷ c, rw e refl, rw (length-subtract_row r b, s) refl)

  -- An arm learns from any context, and its matrix and its vector keep their shape.
  learn-shape :
      (context : List V) (reward : V) (arm : ArmState V)
      → (arm' : ArmState V) × (learn context reward arm ≡ some arm') × (shape arm' ≡ shape arm)
  unfolding learn
  learn-shape context reward arm =
      let ainv_x = multiply_matrix_vector arm.ainv context in
      let delta =
        scale_matrix (outer_product ainv_x ainv_x)
          (d.over (d.ratio 1 1) (d.plus (d.ratio 1 1) (dot context ainv_x))) in
      let tall : length arm.ainv ≤ length delta = omega (
        arith,
        length-map (λ (row : List V). dot row context) arm.ainv,
        length-map (λ x. map (λ y. d.times x y) ainv_x) ainv_x,
        length-map
            (λ (row : List V).
              map
                (λ value.
                  d.times value (d.over (d.ratio 1 1) (d.plus (d.ratio 1 1) (dot context ainv_x))))
                row)
            (outer_product ainv_x ainv_x),
      ) in
      let (c, e, s) = subtract_matrices-total arm.ainv delta tall in
      (
        record { ainv = c; b = add_reward reward arm.b context },
        rw (learn, e) refl,
        rw (s, length-add_reward reward arm.b context) refl,
      )

  -- An arm, if there is one, has `dim` rows and a vector of `dim` elements.
  abbrev pub IsSized : ℕ → Option (ArmState V) → Type 0
  IsSized dim none = Unit
  IsSized dim (some arm) = (length arm.ainv ≡ dim) × (length arm.b ≡ dim)

  abbrev pub AllSized : ℕ → Dict (ArmState V) → Type 0
  AllSized dim state = (id : String) → IsSized dim (Dict.get id state)

  shape-IsSized :
      (arm arm' : ArmState V) (dim : ℕ)
      → shape arm' ≡ shape arm
      → IsSized dim (some arm)
      → IsSized dim (some arm')
  shape-IsSized arm arm' dim e (rows, elements) =
      let size : List ℕ × ℕ → ℕ = λ (p : List ℕ × ℕ). length p.0 in
      let heights = ap size e in
      (
        sym (length-map (λ (row : List V). length row) arm'.ainv)
            ∙ heights
            ∙ length-map (λ (row : List V). length row) arm.ainv
            ∙ rows,
        ap (λ (p : List ℕ × ℕ). p.1) e ∙ elements,
      )

  put-AllSized :
      (dim : ℕ) (id : String) (arm : ArmState V) (state : Dict (ArmState V))
      → IsSized dim (some arm)
      → AllSized dim state
      → AllSized dim (Dict.put id arm state)
  put-AllSized dim id arm state h k j = elim (text_discrete id j) [
    | yes e ↦
        subst (IsSized dim)
          (sym
            (ap (λ i. Dict.get i (Dict.put id arm state)) (sym e) ∙ Dict.get-put_self id arm state))
          h
    | no n ↦ subst (IsSized dim) (sym (Dict.get-put_ne id j arm state n)) (k j)
  ]

  blank-IsSized : (dim : ℕ) (arm : ArmState V) → blank dim ≡ arm → IsSized dim (some arm)
  blank-IsSized dim arm e =
      subst (λ x. IsSized dim (some x)) e
        (
          length-map (λ i. identity_row i (range 0 dim)) (range 0 dim) ∙ length-range 0 dim,
          length-map (λ i. d.ratio 0 1) (range 0 dim) ∙ length-range 0 dim,
        )

  load_rows-AllSized :
      (dim : ℕ) (rows : List (String × ArmState V)) (state : Dict (ArmState V))
      → AllSized dim state
      → AllSized dim (load_rows dim rows state)
  unfolding load_rows
  load_rows-AllSized dim [] state h = h
  load_rows-AllSized dim ((id, row) ∷ rest) state h =
      if_cases (AllSized dim) (length row.ainv == dim && length row.b == dim)
        (load_rows dim rest (Dict.put id row state)) (load_rows dim rest state)
        (λ e. load_rows-AllSized dim rest _ (put-AllSized dim id row state (ground (arith, e)) h))
        (λ e. load_rows-AllSized dim rest state h)

  add_missing-AllSized :
      (dim : ℕ) (actions : List (BanditAction V)) (state : Dict (ArmState V))
      → AllSized dim state
      → AllSized dim (add_missing dim actions state)
  unfolding add_missing
  add_missing-AllSized dim [] state h = h
  add_missing-AllSized dim (action ∷ rest) state h =
      elim (Option-cases (Dict.get action.id state)) [
        | inl e ↦
            rw (add_missing, e)
              (add_missing-AllSized dim rest _
                (put-AllSized dim action.id _ state (blank-IsSized dim _ refl) h))
        | inr (arm, e) ↦ rw (add_missing, e) (add_missing-AllSized dim rest state h)
      ]

  -- All arms of a bandit have its dimension.
  abbrev pub IsShaped : LinUcbBandit V → Type 0
  IsShaped bandit = AllSized bandit.dim bandit.state

  pub create-IsShaped :
      (dim : ℕ) (dim_number : V) (actions : List (BanditAction V))
      (rows : List (String × ArmState V))
      → IsShaped (create dim dim_number actions rows)
  unfolding create Dict.get
  create-IsShaped dim dim_number actions rows =
      add_missing-AllSized dim actions _ (load_rows-AllSized dim rows [] (λ id. tt))

  get_state-IsShaped :
      (id : String) (bandit : LinUcbBandit V)
      → IsShaped bandit
      → IsSized bandit.dim (some (get_state id bandit).0)
        × ((get_state id bandit).1.dim ≡ bandit.dim)
        × AllSized bandit.dim (get_state id bandit).1.state
  unfolding get_state
  get_state-IsShaped id bandit h = elim (Option-cases (Dict.get id bandit.state)) [
    | inl e ↦
        rw (get_state, e)
          (
            blank-IsSized bandit.dim _ refl,
            refl,
            put-AllSized bandit.dim id _ bandit.state (blank-IsSized bandit.dim _ refl) h,
          )
    | inr (arm, e) ↦ rw (get_state, e) (subst (IsSized bandit.dim) e (h id), refl, h)
  ]

  -- Any learning fits, keeps the arms in shape, and throws only if the write does.
  pub update-IsShaped :
      (id : String) (context : List V) (reward : V) (written : Bool) (bandit : LinUcbBandit V)
      → IsShaped bandit
      → ((update id context reward written bandit).0 ≡ some written)
        × ((update id context reward written bandit).1.dim ≡ bandit.dim)
        × AllSized bandit.dim (update id context reward written bandit).1.state
  unfolding update
  update-IsShaped id context reward written bandit h =
      let (sized, same, all) = get_state-IsShaped id bandit h in
      let (arm', e, s) = learn-shape context reward (get_state id bandit).0 in
      rw (update, e)
        (
          refl,
          same,
          put-AllSized bandit.dim id arm' _ (shape-IsSized _ arm' bandit.dim s sized) all,
        )

  visit-IsShaped :
      (actions : List (BanditAction V)) (bandit : LinUcbBandit V)
      → IsShaped bandit
      → ((visit actions bandit).dim ≡ bandit.dim) × AllSized bandit.dim (visit actions bandit).state
  unfolding visit
  visit-IsShaped [] bandit h = (refl, h)
  visit-IsShaped (action ∷ rest) bandit h =
      let (sized, same, all) = get_state-IsShaped action.id bandit h in
      let next = (get_state action.id bandit).1 in
      let (e, k) = visit-IsShaped rest next (subst (λ n. AllSized n next.state) (sym same) all) in
      (e ∙ same, subst (λ n. AllSized n (visit rest next).state) same k)

  pub select-IsShaped :
      (floor draw : V) (pick : ℕ) (context : List V) (bandit : LinUcbBandit V)
      → IsShaped bandit
      → ((select floor draw pick context bandit).1.dim ≡ bandit.dim)
        × AllSized bandit.dim (select floor draw pick context bandit).1.state
  unfolding select
  select-IsShaped floor draw pick context bandit h = elim (Bool-cases (d.lt draw floor)) [
    | inl e ↦ rw (select, e) (refl, h)
    | inr e ↦ rw (select, e) (visit-IsShaped bandit.actions bandit h)
  ]
