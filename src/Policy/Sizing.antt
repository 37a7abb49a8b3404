-- ===== src/Policy/Sizing.antt =====
-- services/policy-engine/src/sizing.ts. The configuration is an argument, and `recordSizingDecision`,
-- which only writes the result down, is left out. `none` is an optional field that is missing.
pub mod Bounds
mod Examples
use trenches.Base.{
  List, [], ◌∷◌, ◌++◌, Option, none, some, Bool, true, false, ◌&&◌, ◌||◌, ◌or_else◌, if◌then◌else◌,
}
use trenches.Base.Number.{Number, whole}

pub record EquityTier (V : Type 0) : Type 0 where
  pub min_equity : V
  pub max_equity : Option V
  pub risk_fraction : V

pub record WalletConfig (V : Type 0) : Type 0 where
  -- `equityTiers`: the last one, and those before it.
  pub tiers : List (EquityTier V)
  pub last_tier : EquityTier V
  pub concurrency_cap : V
  pub per_name_cap_fraction : V
  pub per_name_cap_max_sol : Option V
  pub lp_impact_cap_fraction : V
  pub flow_cap_rewrite : Option Bool
  pub flow_trades_per_5m : Option V
  pub flow_cap_min_sol : Option V
  pub flow_cap_fraction : V
  pub daily_spend_cap_pct : Option V
  pub daily_spend_cap_sol : Option V
  pub scaler_base : V
  pub scaler_max : V

pub record Candidate (V : Type 0) : Type 0 where
  pub social_sss : Option V
  pub social_velocity : Option V
  pub alpha_score : Option V
  pub lp_sol : Option V
  pub buys60 : Option V
  pub sells60 : Option V

pub record WalletSnapshot (V : Type 0) : Type 0 where
  pub equity : V
  pub free : V
  pub spend_used : V
  pub open_positions : V

pub data Reason : Type 0 where
  ok no_available_size concurrency_cap : Reason

pub record Caps (V : Type 0) : Type 0 where
  pub risk : V
  pub concurrency : Option V
  pub per_name : Option V
  pub lp_impact : Option V
  pub flow : Option V
  pub daily : Option V
  pub multiplier : Option V

pub record SizingResult (V : Type 0) : Type 0 where
  pub size : V
  pub base : V
  pub caps : Caps V
  pub tier : V
  pub reason : Reason

module _ {V : Type 0} ⦃d : Number V⦄ where
  open d use {ratio, infinity, plus, minus, times, over, le, lt, eq, min, max, is_finite}

  -- The loop over the tiers, with the fraction of the last one if none is met.
  unfoldable pub tier_fraction : V → V → List (EquityTier V) → V
  tier_fraction equity default [] = default
  tier_fraction equity default (t ∷ ts) = elim t.max_equity [
    | none ↦ t.risk_fraction
    | some max_equity ↦
        if le t.min_equity equity && lt equity max_equity
        then t.risk_fraction
        else tier_fraction equity default ts
  ]

  abbrev exceeds : Option V → V → Bool
  exceeds none limit = false
  exceeds (some x) limit = lt limit x

  -- `isHighConfidence || isTrending`.
  unfoldable pub is_boosted : Candidate V → Bool
  is_boosted c =
      (exceeds c.social_sss (whole 4) || exceeds c.alpha_score (ratio 7 10))
      || exceeds c.social_velocity (ratio 3 2)

  unfoldable pub risk_fraction : WalletConfig V → Candidate V → V → V
  unfolding tier_fraction is_boosted
  risk_fraction w c equity =
      let plain = tier_fraction equity w.last_tier.risk_fraction (w.tiers ++ (w.last_tier ∷ [])) in
      if is_boosted c then min (times plain (whole 2)) (ratio 4 10) else plain

  unfoldable pub flow_cap : WalletConfig V → Candidate V → V → V
  flow_cap w c lp_sol =
      let trades = max (plus (c.buys60 or_else whole 0) (c.sells60 or_else whole 0)) (whole 0) in
      let scale =
        min (whole 1) (over trades (max (w.flow_trades_per_5m or_else whole 60) (whole 1))) in
      let capacity = max (times lp_sol scale) (w.flow_cap_min_sol or_else whole 0) in
      if w.flow_cap_rewrite or_else true
      then times w.flow_cap_fraction capacity
      else times w.flow_cap_fraction lp_sol

  abbrev absolute_cap : Option V → V
  absolute_cap none = infinity
  absolute_cap (some x) = if lt (whole 0) x then x else infinity

  unfoldable pub resolve_daily_cap : WalletConfig V → V → V
  resolve_daily_cap w equity = elim w.daily_spend_cap_pct [
    | none ↦ absolute_cap w.daily_spend_cap_sol
    | some pct ↦
        if lt (whole 0) pct && (is_finite (times equity pct) && lt (whole 0) (times equity pct))
        then times equity pct
        else absolute_cap w.daily_spend_cap_sol
  ]

  unfoldable pub daily_cap_remaining : WalletConfig V → WalletSnapshot V → V
  unfolding resolve_daily_cap
  daily_cap_remaining w s =
      let raw = resolve_daily_cap w s.equity in
      if eq raw infinity then infinity else max (minus raw s.spend_used) (whole 0)

  unfoldable pub concurrency_scaler : WalletConfig V → V → V
  concurrency_scaler w open_positions =
      min
        (max (minus w.scaler_base (times open_positions (ratio 1 10)))
          (over w.scaler_base (whole 2)))
        w.scaler_max

  -- What follows the early return at the concurrency cap.
  unfoldable pub size_within :
      WalletConfig V → Candidate V → WalletSnapshot V → V → V → SizingResult V
  unfolding flow_cap daily_cap_remaining concurrency_scaler
  size_within w c s multiplier fraction =
      let risk = times s.free fraction in
      let per_name =
        min (times w.per_name_cap_fraction s.equity) (w.per_name_cap_max_sol or_else infinity) in
      let lp_sol = max (c.lp_sol or_else whole 0) (whole 0) in
      let impact = times w.lp_impact_cap_fraction lp_sol in
      let flow = flow_cap w c lp_sol in
      let daily = daily_cap_remaining w s in
      let base = max (min (min (min (min risk per_name) impact) flow) daily) (whole 0) in
      let adjusted = times (times base multiplier) (concurrency_scaler w s.open_positions) in
      let size = max (min (min (min adjusted base) s.free) daily) (whole 0) in
      record {
        size = size;
        base = base;
        caps = record {
          risk = risk;
          concurrency = none;
          per_name = some per_name;
          lp_impact = some impact;
          flow = some flow;
          daily = some daily;
          multiplier = some adjusted;
        };
        tier = fraction;
        reason = if le size (whole 0) then no_available_size else ok;
      }

  unfoldable pub compute_sizing :
      WalletConfig V → Candidate V → WalletSnapshot V → V → SizingResult V
  unfolding risk_fraction
  compute_sizing w c s multiplier =
      let fraction = risk_fraction w c s.equity in
      if le w.concurrency_cap s.open_positions
      then record {
        size = whole 0;
        base = whole 0;
        caps = record {
          risk = times s.free fraction;
          concurrency = some (whole 0);
          per_name = none;
          lp_impact = none;
          flow = none;
          daily = none;
          multiplier = none;
        };
        tier = fraction;
        reason = concurrency_cap;
      }
      else size_within w c s multiplier fraction
