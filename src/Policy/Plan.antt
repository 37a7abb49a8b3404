-- ===== src/Policy/Plan.antt =====
-- services/policy-engine/src: slippage.ts, tip.ts, context.ts, and of index.ts the guards from the
-- candidate's safety on, up to the plan (`withinTradingCaps`, `congestionToScore`, the stream handler).
-- The selection of the bandit and the size, with its reason, are arguments; so are the draw of
-- `Math.random()`, the new id, and `toFixed(4)`. The gate of the alpha scores is in Policy/Alpha.
pub mod Guards
mod Examples
use trenches.Base.{
  ℕ, List, [], ◌∷◌, Option, none, some, Bool, true, false, not, ◌&&◌, ◌||◌, String, leb, ◌or_else◌,
  if◌then◌else◌,
}
use trenches.Base.Sets.{same}
use trenches.Base.Number.{Number, whole}
use trenches.Base.Dict.{Dict}
use trenches.Policy.Bandit.{BanditAction}
use trenches.Policy.Alpha.{AlphaConfig, AlphaEntry, alpha_gate}

pub record Candidate (V : Type 0) : Type 0 where
  pub mint : String
  pub age_sec : V
  pub lp_sol : V
  pub buys60 : V
  pub sells60 : V
  pub uniques60 : V
  pub spread_bps : V
  pub rug_prob : Option V
  pub safety_ok : Bool

pub record Wallet (V : Type 0) : Type 0 where
  pub ready : Bool
  pub equity : V
  pub free : V
  pub spend_remaining : V

pub record Limits (V : Type 0) : Type 0 where
  pub min_free_sol : Option V
  pub daily_loss_cap_pct : V
  pub max_open_positions : Option ℕ
  pub max_daily_new : Option ℕ
  pub daily_loss_cap_usd : Option V

-- What the database answers; `none` is a call that throws.
pub record Ledger (V : Type 0) : Type 0 where
  pub daily_realized_pnl : V
  pub open_positions : Option ℕ
  pub new_positions_today : Option ℕ
  pub daily_pnl_usd : Option V

pub record TipConfig (V : Type 0) : Type 0 where
  pub jito_enabled : Bool
  pub ranges : Option (String → Option (V × V))

pub record OrderPlan (V : Type 0) : Type 0 where
  pub mint : String
  pub gate : String
  pub size_sol : V
  pub slippage_bps : V
  pub jito_tip_lamports : V
  pub client_order_id : String

-- What a candidate comes with: the leader's boost, the answers of the ranker, the state of the
-- wallet and of the ledger, and the bandit's action with its size and the reason of the size.
pub record Situation (V : Type 0) : Type 0 where
  pub now : ℕ
  pub leader : Bool
  pub answers : Option (List (Option (AlphaEntry V)))
  pub wallet : Wallet V
  pub ledger : Ledger V
  pub action : BanditAction V
  pub size : V
  pub reason : String
  pub random : V
  pub id : String

-- A plan, or the reason why there is none.
pub data Decision (V : Type 0) : Type 0 where
  suppressed : String → Decision V
  planned : OrderPlan V → Decision V

-- A limit that is there and reached. A count that cannot be read ends the test, with no limit reached.
abbrev pub reaches : Option ℕ → Option ℕ → Bool
reaches none count = false
reaches (some limit) none = false
reaches (some limit) (some n) = leb limit n

abbrev pub unread : Option ℕ → Option ℕ → Bool
unread none count = false
unread (some limit) none = true
unread (some limit) (some n) = false

abbrev pub capped : {V : Type 0} → Option String → Decision V → Decision V
capped none next = next
capped (some reason) next = suppressed reason

module _ {V : Type 0} ⦃d : Number V⦄ where
  open d use {ratio, plus, minus, times, over, le, lt, eq, min, max, floor, round, abs, is_finite}

  unfoldable pub slippage_bps_by_pool_age : V → V × V
  slippage_bps_by_pool_age age =
      if lt age (whole 30)
      then (whole 500, whole 800)
      else if lt age (whole 60)
      then (whole 300, whole 500)
      else if lt age (whole 120)
      then (whole 100, whole 200)
      else (whole 50, whole 150)

  unfoldable pub pick_slippage_bps : V → V → V
  pick_slippage_bps age action_slippage =
      let (lo, hi) = slippage_bps_by_pool_age age in round (min (max action_slippage lo) hi)

  abbrev default_range : String → V × V
  default_range level =
      if same level "p25"
      then (whole 200000, whole 400000)
      else if same level "p50"
      then (whole 500000, whole 1000000)
      else if same level "p75"
      then (whole 1500000, whole 2500000)
      else (whole 3000000, whole 4000000)

  abbrev range_of : TipConfig V → String → V × V
  range_of cfg level = elim cfg.ranges [
    | none ↦ default_range level
    | some ranges ↦ ranges level or_else default_range level
  ]

  unfoldable pub pick_tip_lamports : TipConfig V → String → V → V
  pick_tip_lamports cfg level random =
      let (lo, hi) = range_of cfg level in
      let least = if is_finite lo then max (whole 0) lo else (default_range level).0 in
      let most = if is_finite hi then max (plus least (whole 1)) hi else (default_range level).1 in
      if cfg.jito_enabled
      then floor (plus least (times random (max (whole 1) (minus most least))))
      else whole 0

  unfoldable pub normalize : V → V → Bool → V
  normalize value scale invert =
      let v = max (min (over value scale) (whole 1)) (whole 0) in
      if le scale (whole 0) then whole 0 else if invert then minus (whole 1) v else v

  unfoldable pub build_context : Candidate V → V → V → List V
  build_context c congestion_score wallet_equity =
      normalize c.age_sec (whole 600) true
      ∷ normalize c.lp_sol (whole 120) false
      ∷ normalize (plus c.buys60 c.sells60) (whole 200) false
      ∷ normalize c.uniques60 (whole 40) false
      ∷ normalize c.spread_bps (whole 200) true
      ∷ congestion_score
      ∷ normalize wallet_equity (whole 200) false
      ∷ []

  unfoldable pub congestion_to_score : String → V
  congestion_to_score level =
      if same level "p25"
      then whole 1
      else if same level "p50"
      then ratio 7 10
      else if same level "p75"
      then ratio 4 10
      else if same level "p90"
      then ratio 2 10
      else ratio 5 10

  abbrev pub loses : Option V → Option V → Bool
  loses none pnl = false
  loses (some cap) none = false
  loses (some cap) (some pnl) = lt (whole 0) cap && le pnl (minus (whole 0) (abs cap))

  -- The trading cap that is reached, if any.
  unfoldable pub within_trading_caps : Limits V → Ledger V → Option String
  within_trading_caps l db =
      if unread l.max_open_positions db.open_positions
      then none
      else if reaches l.max_open_positions db.open_positions
      then some "max_open"
      else if unread l.max_daily_new db.new_positions_today
      then none
      else if reaches l.max_daily_new db.new_positions_today
      then some "max_daily_new"
      else if loses l.daily_loss_cap_usd db.daily_pnl_usd
      then some "daily_loss_cap"
      else none

  abbrev pub is_rug : Option V → Bool
  is_rug none = false
  is_rug (some p) = lt (ratio 8 10) p

  abbrev pub lacks_free : Option V → V → Bool
  lacks_free none free = false
  lacks_free (some least) free = eq least least && lt free least

  abbrev pub lost_today : Limits V → Wallet V → Ledger V → Bool
  lost_today l w db =
      lt db.daily_realized_pnl (whole 0)
      && le (times l.daily_loss_cap_pct w.equity) (abs db.daily_realized_pnl)

  abbrev pub plan_of : TipConfig V → V → String → Candidate V → BanditAction V → V → OrderPlan V
  plan_of tips random id c action size = record {
    mint = c.mint;
    gate = action.gate;
    size_sol = size;
    slippage_bps = pick_slippage_bps c.age_sec action.slippage_bps;
    jito_tip_lamports = pick_tip_lamports tips action.tip_percentile random;
    client_order_id = id;
  }

  unfoldable pub decide :
      Limits V
      → TipConfig V
      → (V → V)
      → V
      → String
      → Wallet V
      → Ledger V
      → BanditAction V
      → V
      → String
      → Candidate V
      → Decision V
  decide l tips to_fixed random id w db action size reason c =
      if is_rug c.rug_prob
      then suppressed "rugprob_high"
      else if not c.safety_ok
      then suppressed "safety_not_ok"
      else if not w.ready
      then suppressed "wallet_unavailable"
      else if lacks_free l.min_free_sol w.free
      then suppressed "min_free_sol"
      else if le w.spend_remaining (whole 0)
      then suppressed "daily_cap_exhausted"
      else if lost_today l w db
      then suppressed "daily_loss_cap"
      else if le size (whole 0)
      then suppressed reason
      else capped (within_trading_caps l db) (
          if lt (to_fixed size) (ratio 1 1000)
          then suppressed "min_order_size"
          else planned (plan_of tips random id c action (to_fixed size)))

  -- The handler: the gate of the alpha scores, and then the guards.
  unfoldable pub handle_candidate :
      AlphaConfig V
      → Limits V
      → TipConfig V
      → (V → V)
      → Situation V
      → Candidate V
      → Dict (AlphaEntry V)
      → Decision V × Dict (AlphaEntry V)
  handle_candidate alpha l tips to_fixed x c scores =
      let (held_back, scores') = alpha_gate alpha x.now c.mint x.leader x.answers scores in
      let decision =
        decide l tips to_fixed x.random x.id x.wallet x.ledger x.action x.size x.reason c in
      (elim held_back [ some reason ↦ suppressed reason | none ↦ decision ], scores')
