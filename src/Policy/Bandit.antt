-- ===== src/Policy/Bandit.antt =====
-- services/policy-engine/src/bandit.ts (`LinUCBBandit`). A matrix is the list of its rows. The draws
-- of `Math.random()` and the stored rows are arguments; the write of the new state, which nothing
-- here reads, is left out.
pub mod Shape
pub mod History
pub mod Choice
mod Examples
use trenches.Base.{
  ℕ, zero, suc, List, [], ◌∷◌, ◌++◌, Option, none, some, Bool, true, false, not, ◌&&◌, String, ◌==◌,
  ◌>>=◌, if◌then◌else◌, length, map, get_elem?,
}
use trenches.Base.Dict
use trenches.Base.Dict.{Dict}
use trenches.Base.Best.{choose}
use trenches.Base.Number.{Number, whole}

-- services/policy-engine/src/types.ts
pub record BanditAction (V : Type 0) : Type 0 where
  pub id : String
  pub gate : String
  pub slippage_bps : V
  pub tip_percentile : String
  pub size_multiplier : V

pub record BanditSelection (V : Type 0) : Type 0 where
  pub action : BanditAction V
  pub expected_reward : V
  pub confidence : V

pub record ArmState (V : Type 0) : Type 0 where
  pub ainv : List (List V)
  pub b : List V

pub record LinUcbBandit (V : Type 0) : Type 0 where
  pub actions : List (BanditAction V)
  pub alpha : V
  pub dim : ℕ
  pub state : Dict (ArmState V)

-- The numbers from n up, m of them.
abbrev pub range : ℕ → ℕ → List ℕ
range n zero = []
range n (suc m) = n ∷ range (suc n) m

module _ {V : Type 0} ⦃d : Number V⦄ where
  open d use {ratio, plus, minus, times, over, le, lt, min, max, sqrt, abs}

  -- An element that is read past the end of an array counts as NaN.
  abbrev pub nan : V
  nan = over (whole 0) (whole 0)

  unfoldable pub dot_from : V → List V → List V → V
  dot_from sum [] ys = sum
  dot_from sum (x ∷ xs) [] = dot_from (plus sum (times x nan)) xs []
  dot_from sum (x ∷ xs) (y ∷ ys) = dot_from (plus sum (times x y)) xs ys

  abbrev pub dot : List V → List V → V
  dot a b = dot_from (whole 0) a b

  abbrev pub multiply_matrix_vector : List (List V) → List V → List V
  multiply_matrix_vector matrix vector = map (λ row. dot row vector) matrix

  abbrev quadratic_form : List (List V) → List V → V
  quadratic_form matrix vector = dot vector (multiply_matrix_vector matrix vector)

  abbrev pub outer_product : List V → List V → List (List V)
  outer_product a b = map (λ x. map (λ y. times x y) b) a

  abbrev pub scale_matrix : List (List V) → V → List (List V)
  scale_matrix matrix scalar = map (λ row. map (λ value. times value scalar) row) matrix

  unfoldable pub subtract_row : List V → List V → List V
  subtract_row [] bs = []
  subtract_row (a ∷ rest) [] = minus a nan ∷ subtract_row rest []
  subtract_row (a ∷ rest) (b ∷ bs) = minus a b ∷ subtract_row rest bs

  -- A row with elements that the other matrix does not have throws.
  unfoldable pub subtract_matrices : List (List V) → List (List V) → Option (List (List V))
  subtract_matrices [] bs = some []
  subtract_matrices ([] ∷ more) [] = do rest ← subtract_matrices more []; some ([] ∷ rest)
  subtract_matrices ((x ∷ xs) ∷ more) [] = none
  subtract_matrices (a ∷ more) (b ∷ bs) = do
    rest ← subtract_matrices more bs
    some (subtract_row a b ∷ rest)

  abbrev exploitation_confidence : V → V → V
  exploitation_confidence exploit exploration =
      min (over (abs exploit) (plus (plus (abs exploit) (abs exploration)) (ratio 1 1000000)))
        (whole 1)

  abbrev pub identity_row : ℕ → List ℕ → List V
  identity_row i js = map (λ j. if i == j then whole 1 else whole 0) js

  abbrev pub identity_matrix : ℕ → List (List V)
  identity_matrix size = map (λ i. identity_row i (range 0 size)) (range 0 size)

  abbrev pub zeros : ℕ → List V
  zeros size = map (λ i. whole 0) (range 0 size)

  abbrev pub blank : ℕ → ArmState V
  blank dim = record { ainv = identity_matrix dim; b = zeros dim }

  unfoldable pub get_state : String → LinUcbBandit V → ArmState V × LinUcbBandit V
  get_state id bandit = elim (Dict.get id bandit.state) [
    | some existing ↦ (existing, bandit)
    | none ↦
        (blank bandit.dim, record bandit { state = Dict.put id (blank bandit.dim) bandit.state })
  ]

  -- The first loop of `bootstrapState`, over the stored rows.
  unfoldable pub load_rows : ℕ → List (String × ArmState V) → Dict (ArmState V) → Dict (ArmState V)
  load_rows dim [] state = state
  load_rows dim ((id, row) ∷ rest) state =
      if length row.ainv == dim && length row.b == dim
      then load_rows dim rest (Dict.put id row state)
      else load_rows dim rest state

  -- The second, over the actions.
  unfoldable pub add_missing : ℕ → List (BanditAction V) → Dict (ArmState V) → Dict (ArmState V)
  add_missing dim [] state = state
  add_missing dim (action ∷ rest) state = elim (Dict.get action.id state) [
    | some existing ↦ add_missing dim rest state
    | none ↦ add_missing dim rest (Dict.put action.id (blank dim) state)
  ]

  -- The constructor.
  unfoldable pub create :
      ℕ → V → List (BanditAction V) → List (String × ArmState V) → LinUcbBandit V
  create dim dim_number actions rows = record {
    actions = actions;
    alpha = sqrt dim_number;
    dim = dim;
    state = add_missing dim actions (load_rows dim rows []);
  }

  abbrev pub score_action : LinUcbBandit V → List V → BanditAction V → Option (BanditSelection V)
  score_action bandit context action =
      let arm = (get_state action.id bandit).0 in
      let exploit = dot (multiply_matrix_vector arm.ainv arm.b) context in
      let exploration = times bandit.alpha (sqrt (quadratic_form arm.ainv context)) in
      some (record {
        action = action;
        expected_reward = plus exploit exploration;
        confidence = exploitation_confidence exploit exploration;
      })

  -- The states that the loop of `select` adds.
  unfoldable pub visit : List (BanditAction V) → LinUcbBandit V → LinUcbBandit V
  visit [] bandit = bandit
  visit (action ∷ rest) bandit = visit rest (get_state action.id bandit).1

  abbrev pub reward_of : BanditSelection V → V
  reward_of s = s.expected_reward

  -- `floor` stands for `Math.max(config.bandit.epsilonFloor ?? EPSILON_FLOOR, EPSILON_FLOOR)`, `draw` for
  -- the first number drawn, and `pick` for the place that the second one gives. There is no result
  -- without actions.
  unfoldable pub select :
      V → V → ℕ → List V → LinUcbBandit V → Option (BanditSelection V) × LinUcbBandit V
  select floor draw pick context bandit =
      let random = get_elem? bandit.actions pick >>= λ action.
      some (record { action = action; expected_reward = whole 0; confidence = floor }) in
      if lt draw floor then (random, bandit) else (
        choose reward_of (score_action bandit context) bandit.actions none,
        visit bandit.actions bandit,
      )

  abbrev pub epsilon : Option V → V
  epsilon none = max (ratio 2 100) (ratio 2 100)
  epsilon (some floor) = max floor (ratio 2 100)

  unfoldable pub add_reward : V → List V → List V → List V
  add_reward reward [] context = []
  add_reward reward (x ∷ xs) [] = plus x (times reward nan) ∷ add_reward reward xs []
  add_reward reward (x ∷ xs) (c ∷ cs) = plus x (times reward c) ∷ add_reward reward xs cs

  -- The new state of an arm.
  unfoldable pub learn : List V → V → ArmState V → Option (ArmState V)
  learn context reward arm =
      let ainv_x = multiply_matrix_vector arm.ainv context in
      let denominator = plus (whole 1) (dot context ainv_x) in
      let delta = scale_matrix (outer_product ainv_x ainv_x) (over (whole 1) denominator) in
      do
        ainv ← subtract_matrices arm.ainv delta
        some (record { ainv = ainv; b = add_reward reward arm.b context })

  -- What the arm learns is put into the map before `upsertBanditState` writes it. `written` says
  -- whether that write succeeds; if not it throws, and so does the call, with the map changed. `none`
  -- is a matrix that does not fit: it throws before anything but the arm's first entry is put.
  unfoldable pub update : String → List V → V → Bool → LinUcbBandit V → Option Bool × LinUcbBandit V
  update id context reward written bandit =
      let (old, visited) = get_state id bandit in
      elim (learn context reward old) [
        | none ↦ (none, visited)
        | some arm ↦ (some written, record visited { state = Dict.put id arm visited.state })
      ]
