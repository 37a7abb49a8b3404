-- ===== src/Positions/Stops.antt =====
-- services/position-manager/src/survival_stops.ts. The gauges and the row that is written are left out.
use trenches.Base.{
  ◌/◌, List, [], ◌∷◌, Option, ◌or_else◌, if◌then◌else◌, length, take, map, max as max_ℕ,
}
use trenches.Base.Number.{Number, whole, ◌≼◌, IsNumber, IsOrdered, max-le}
use trenches.Util.Math.{clamp01, sigmoid, clamp01-IsWithin}

pub record Extras (V : Type 0) : Type 0 where
  pub pnl_pct : V
  pub spread_bps : V
  pub volatility_bps : V
  pub flow_ratio : V
  pub slip_gap_bps : V
  pub rug_prob : Option V

pub record SurvivalConfig (V : Type 0) : Type 0 where
  pub base_trail_bps : Option V
  pub min_trail_bps : Option V
  pub max_trail_bps : Option V
  pub ladder_levels : Option (List V)
  pub hazard_tighten : Option V
  pub hazard_panic : Option V

pub record HazardState (V : Type 0) : Type 0 where
  pub sell_trail_bps : V
  pub ladder : List (V × V)
  pub hazard : V

module _ {V : Type 0} ⦃d : Number V⦄ where
  open d use {ratio, plus, minus, times, over, le, min, max, round, exp, is_finite}

  abbrev default_levels : List V
  default_levels = ratio 5 100 ∷ ratio 12 100 ∷ ratio 22 100 ∷ []

  unfoldable pub hazard_score : Extras V → V
  unfolding clamp01
  hazard_score e =
      let red = clamp01 (over (minus (whole 0) e.pnl_pct) (ratio 8 100)) in
      let wide = clamp01 (over e.spread_bps (whole 120)) in
      let choppy = clamp01 (over e.volatility_bps (whole 180)) in
      let sell_flow = clamp01 (over (minus (whole 1) e.flow_ratio) (ratio 6 10)) in
      let slip_shock = clamp01 (over e.slip_gap_bps (whole 80)) in
      let rug = clamp01 (e.rug_prob or_else whole 0) in
      let green = clamp01 (over e.pnl_pct (ratio 12 100)) in
      let buy_flow = clamp01 (over (minus e.flow_ratio (whole 1)) (ratio 6 10)) in
      let z1 = plus (times (ratio 12 10) red) (times (ratio 9 10) wide) in
      let z2 = plus (plus z1 (times (whole 1) choppy)) (times (ratio 8 10) sell_flow) in
      let z3 = plus (plus z2 (times (ratio 7 10) slip_shock)) (times (ratio 6 10) rug) in
      minus (minus z3 (times (ratio 9 10) green)) (times (ratio 6 10) buy_flow)

  -- The trailing width in basis points, before the cuts.
  abbrev pub trail_width : SurvivalConfig V → V → V
  trail_width cfg hazard =
      round
        (times (cfg.base_trail_bps or_else whole 120) (minus (whole 1) (times (ratio 6 10) hazard)))

  unfoldable pub compute_stops : SurvivalConfig V → Extras V → HazardState V
  compute_stops cfg e =
      let hazard = clamp01 (sigmoid (hazard_score e)) in
      let width = trail_width cfg hazard in
      let min_b = cfg.min_trail_bps or_else whole 60 in
      let max_b = cfg.max_trail_bps or_else whole 250 in
      let levels = cfg.ladder_levels or_else default_levels in
      let kept =
        if le (cfg.hazard_tighten or_else ratio 65 100) hazard
        then take (max_ℕ 1 (length levels / 2)) levels
        else levels in
      record {
        sell_trail_bps = max min_b (min max_b width);
        ladder = map (λ lvl. (lvl, ratio 25 100)) kept;
        hazard = hazard;
      }

  -- The hazard is a number from 0 to 1, whatever it was computed from, NaN included; and the trailing
  -- width is at least the configured minimum, and at most the configured maximum, provided the
  -- width before the cuts is a number and the minimum is not above the maximum.
  pub compute_stops-IsWithin :
      IsOrdered V
      → (cfg : SurvivalConfig V) (e : Extras V)
      → let stops = compute_stops cfg e in
        let min_b = cfg.min_trail_bps or_else whole 60 in
        let max_b = cfg.max_trail_bps or_else whole 250 in
        IsNumber (trail_width cfg stops.hazard)
        → min_b ≼ max_b
        → (whole 0 ≼ stops.hazard)
          × (stops.hazard ≼ whole 1)
          × (min_b ≼ stops.sell_trail_bps)
          × (stops.sell_trail_bps ≼ max_b)
  unfolding compute_stops
  compute_stops-IsWithin laws cfg e hw hb =
      let (low, high) = clamp01-IsWithin laws (sigmoid (hazard_score e)) in
      let (nb, mb) = laws.numbers_of_le _ _ hb in
      let cut = laws.min-le _ _ mb hw in
      let number = (laws.numbers_of_le _ _ cut.0).0 in
      (low, high, (laws.le-max _ _ nb number).0, max-le laws _ _ _ hb cut.0)
