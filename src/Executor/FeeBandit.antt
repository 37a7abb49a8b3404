-- ===== src/Executor/FeeBandit.antt =====
-- services/executor/src/fee-bandit.ts. The one entry of `state`, `state['global']`, is an argument and a
-- result; the configured arms are an argument. The record of the decision is left out.
pub mod Width
use trenches.Base.{
  ℕ, zero, suc, List, [], ◌∷◌, Option, none, some, Bool, true, false, ◌==◌, ◌or_else◌,
  if◌then◌else◌, map, take, length,
}
use trenches.Base.Number.{Number, whole}

pub record FeeContext (V : Type 0) : Type 0 where
  pub congestion_score : Option V
  pub size_sol : V
  pub equity : V
  pub lp_sol : Option V
  pub spread_bps : Option V
  pub volatility_bps : Option V

pub record Arm (V : Type 0) : Type 0 where
  pub cu_price : V
  pub slippage_bps : V

pub record ArmState (V : Type 0) : Type 0 where
  pub a : List (List V)
  pub b : List V
  pub count : ℕ

pub record Outcome (V : Type 0) : Type 0 where
  pub filled : Bool
  pub realized_slip_bps : V
  pub fee_bps : V

pub record FeeDecision (V : Type 0) : Type 0 where
  pub ts : ℕ
  pub cu_price : V
  pub cu_limit : V
  pub slippage_bps : V

-- The arm that is picked, which is `undefined` when none was eligible, its place and its score.
pub record Pick (V : Type 0) : Type 0 where
  pub arm : Option (Arm V)
  pub idx : ℕ
  pub score : V

module _ {V : Type 0} ⦃d : Number V⦄ where
  open d use {ratio, infinity, plus, minus, times, over, lt, min, max, floor, sqrt}

  unfoldable pub zeros : ℕ → List V
  zeros zero = []
  zeros (suc n) = whole 0 ∷ zeros n

  -- A row of the identity with its 1 at place i.
  unfoldable pub eye_row : ℕ → ℕ → List V
  eye_row i zero = []
  eye_row zero (suc n) = whole 1 ∷ zeros n
  eye_row (suc i) (suc n) = whole 0 ∷ eye_row i n

  -- Its last m rows.
  unfoldable pub eye_from : ℕ → ℕ → ℕ → List (List V)
  eye_from i zero n = []
  eye_from i (suc m) n = eye_row i n ∷ eye_from (suc i) m n

  abbrev pub eye : ℕ → List (List V)
  eye n = eye_from 0 n n

  -- `a.reduce((s, v, i) => s + v * (b[i] ?? 0), 0)`.
  unfoldable pub dot_from : V → List V → List V → V
  dot_from s [] bs = s
  dot_from s (v ∷ vs) [] = dot_from (plus s (times v (whole 0))) vs []
  dot_from s (v ∷ vs) (b ∷ bs) = dot_from (plus s (times v b)) vs bs

  unfoldable pub add_vec : List V → List V → List V
  add_vec [] bs = []
  add_vec (v ∷ vs) [] = plus v (whole 0) ∷ add_vec vs []
  add_vec (v ∷ vs) (b ∷ bs) = plus v b ∷ add_vec vs bs

  unfoldable pub add_mat : List (List V) → List (List V) → List (List V)
  add_mat [] bs = []
  add_mat (row ∷ rows) [] = add_vec row [] ∷ add_mat rows []
  add_mat (row ∷ rows) (b ∷ bs) = add_vec row b ∷ add_mat rows bs

  abbrev pub outer : List V → List V → List (List V)
  outer x y = map (λ xi. map (λ yj. times xi yj) y) x

  unfoldable pub to_context_vector : FeeContext V → List V
  to_context_vector ctx =
      whole 1
      ∷ min (whole 1) (ctx.congestion_score or_else ratio 1 2)
      ∷ min (whole 1) (over (ctx.lp_sol or_else whole 0) (whole 50))
      ∷ minus (whole 1) (min (whole 1) (over (ctx.spread_bps or_else whole 0) (whole 200)))
      ∷ minus (whole 1) (min (whole 1) (over (ctx.volatility_bps or_else whole 0) (whole 300)))
      ∷ min (whole 1) (over ctx.size_sol (max (ratio 1 100) ctx.equity))
      ∷ []

  -- The features of an arm in a context.
  unfoldable pub features : List V → Arm V → List V
  features [] arm =
      min (whole 1) (over arm.cu_price (whole 10000))
      ∷ min (whole 1) (over arm.slippage_bps (whole 300))
      ∷ []
  features (x ∷ xs) arm = x ∷ features xs arm

  abbrev pub initial : ℕ → ArmState V
  initial n = record { a = eye n; b = zeros n; count = 0 }

  abbrev pub squares_from : V → List V → V
  squares_from acc [] = acc
  squares_from acc (v ∷ vs) = squares_from (plus acc (times v v)) vs

  abbrev pub score_arm : V → List V → List V → Arm V → V
  score_arm uw theta x arm =
      let feat = features x arm in
      let mean = dot_from (whole 0) theta (take (length theta) feat) in
      plus mean (times uw (sqrt (squares_from (whole 0) feat)))

  -- The loop of `selectArm`; i is the place of the next arm.
  unfoldable pub pick_from : (Arm V → V) → ℕ → List (Arm V) → Pick V → Pick V
  pick_from scored i [] best = best
  pick_from scored i (arm ∷ arms) best =
      let sc = scored arm in
      pick_from scored (suc i) arms
        (if lt best.score sc then record { arm = some arm; idx = i; score = sc } else best)

  abbrev pub head : List (Arm V) → Option (Arm V)
  head [] = none
  head (arm ∷ arms) = some arm

  unfoldable pub select_arm :
      FeeContext V → List (Arm V) → V → Option (ArmState V) → Pick V × ArmState V
  select_arm ctx eligible uw state =
      let x = to_context_vector ctx in
      let s = state or_else initial (length x) in
      let start : Pick V = record {
        arm = head eligible;
        idx = 0;
        score = minus (whole 0) infinity;
      } in
      (pick_from (score_arm uw s.b x) 0 eligible start, s)

  abbrev pub reward_of : Outcome V → V
  reward_of outcome =
      times (max (whole 0) (minus (minus (whole 120) outcome.realized_slip_bps) outcome.fee_bps))
        (if outcome.filled then whole 1 else minus (whole 0) (ratio 1 2))

  unfoldable pub update_arm : FeeContext V → Arm V → Outcome V → Option (ArmState V) → ArmState V
  update_arm ctx arm outcome state =
      let feat = features (to_context_vector ctx) arm in
      let s = state or_else initial (length feat) in
      record {
        a = add_mat s.a (outer feat feat);
        b = add_vec s.b (map (λ v. times v (reward_of outcome)) feat);
        count = suc s.count;
      }

  abbrev decided : ℕ → V → Option (Arm V) → Option (FeeDecision V)
  decided ts cu_limit none = none
  decided ts cu_limit (some arm) = some (record {
    ts = ts;
    cu_price = arm.cu_price;
    cu_limit = cu_limit;
    slippage_bps = arm.slippage_bps;
  })

  -- Without arms it throws.
  unfoldable pub decide_fees :
      FeeContext V → List (Arm V) → ℕ → Option (ArmState V) → Option (FeeDecision V) × ArmState V
  decide_fees ctx arms ts state =
      let (pick, s) = select_arm ctx arms (ratio 2 10) state in
      let cu_limit =
        plus (whole 1200000) (floor (min (whole 800000) (times ctx.size_sol (whole 50000)))) in
      (decided ts cu_limit pick.arm, s)
