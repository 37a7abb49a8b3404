-- ===== src/Positions/Evaluation.antt =====
-- services/position-manager/src/index.ts: the evaluation of a position (`evaluatePosition`): the
-- autokill, the survival stops, the ladder, the trailing stop and the hard stop, in this order. It is one
-- step here; the program awaits the executor at each exit.
pub mod Ladder
pub mod Quantity
pub mod Closed
use trenches.Base.{
  ℕ, zero, suc, ◌+◌, ◌*◌, List, [], ◌∷◌, Option, none, some, Bool, true, false, not, ◌&&◌, ◌||◌,
  ◌or_else◌, String, if◌then◌else◌, ◌==◌, ite, text_discrete,
}
use trenches.Base.Dict
use trenches.Base.Dict.{Dict}
use trenches.Base.Number.{Number, whole}
use trenches.Util.TtlCache
use trenches.Util.TtlCache.{TtlCache}
use trenches.Positions.Fills.{PositionState, pow10}
use trenches.Positions.Stops.{SurvivalConfig, Extras, compute_stops}
use Prim.Native.String.{◌++◌}
use text.Mathlib.Text.{starts_with}
use trenches.Positions.Exits.{Candidate, AutokillConfig, Config, Env, World, trigger_exit}

-- A level of a ladder: its target price, the reason of its exit, and the share to sell.
pub record Level (V : Type 0) : Type 0 where
  pub target : V
  pub reason : String
  pub share : V

abbrev pub has_hit : ℕ → List ℕ → Bool
has_hit i [] = false
has_hit i (j ∷ js) = (i == j) || has_hit i js

abbrev pub add_hit : ℕ → List ℕ → List ℕ
add_hit i hits = if has_hit i hits then hits else i ∷ hits

abbrev includes : List String → String → Bool
includes [] r = false
includes (s ∷ ss) r = ite (text_discrete s r) true (includes ss r)

abbrev some_included : List String → List String → Bool
some_included among [] = false
some_included among (r ∷ rs) = includes among r || some_included among rs

module _ {V : Type 0} ⦃d : Number V⦄ where
  open d use {ratio, infinity, plus, minus, times, over, le, lt, min, max, floor, round}

  abbrev is_safety_regression : AutokillConfig V → Candidate V → Bool
  is_safety_regression ak c = not c.safety_ok || some_included ak.safety_reasons c.safety_reasons

  abbrev flow_ratio : Candidate V → V
  flow_ratio c =
      let sells = c.sells60 or_else whole 0 in
      if lt (whole 0) sells then over (c.buys60 or_else whole 0) sells else infinity

  -- The candidate is unsafe, or its flow has collapsed against the traders seen before.
  abbrev pub is_kill : AutokillConfig V → V → Candidate V → Bool
  is_kill ak previous c =
      let drop = ak.uniques_drop_threshold or_else whole 1 in
      let collapse =
        lt (flow_ratio c) (ak.flow_ratio_threshold or_else ratio 6 10)
        && lt (plus (c.uniques60 or_else whole 0) drop) previous in
      is_safety_regression ak c || collapse

  -- The first check of an evaluation, and whether it ends it.
  unfoldable pub check_autokill : Env V → String → World V → Bool × World V
  check_autokill env mint w = elim env.candidate [
    | none ↦ (false, w)
    | some c ↦
        let current = c.uniques60 or_else whole 0 in
        let previous = Dict.get mint w.last_uniques or_else current in
        let w' = record w { last_uniques = Dict.put mint current w.last_uniques } in
        if is_kill env.config.autokill previous c
        then (true, trigger_exit env mint "autokill" (whole 1) w')
        else (false, w')
  ]

  -- The loop over the levels from index `i` on.
  unfoldable pub climb : Env V → String → ℕ → List (Level V) → World V → World V
  climb env mint i [] w = w
  climb env mint i (level ∷ levels) w =
      let w1 = trigger_exit env mint level.reason level.share w in
      let w2 = record w1 {
        state = record w1.state { ladder_hits = add_hit i w1.state.ladder_hits };
      } in
      climb env mint (suc i) levels
        (if has_hit i w.state.ladder_hits || not (le level.target env.price) then w else w2)

  -- The levels of the configured ladder, as many as there are shares; the last percentage sells all.
  unfoldable pub ladder_levels : Env V → V → List V → List V → List (Level V)
  ladder_levels env avg [] shares = []
  ladder_levels env avg (l ∷ ls) [] = []
  ladder_levels env avg (l ∷ ls) (share ∷ shares) =
      record {
        target = times avg (plus (whole 1) (over l (whole 100)));
        reason = "ladder_" ++ env.show l;
        share = elim ls [ [] ↦ whole 1 | _ ∷ _ ↦ share ];
      }
      ∷ ladder_levels env avg ls shares

  abbrev pub ladder : Env V → V → List (Level V)
  ladder env avg =
      ladder_levels env avg
        (env.config.multiplier_percents or_else whole 50 ∷ whole 100 ∷ whole 200 ∷ whole 400 ∷ [])
        (ratio 25 100 ∷ ratio 25 100 ∷ ratio 25 100 ∷ whole 1 ∷ [])

  unfoldable pub survival_levels : Env V → V → List V → List (Level V)
  survival_levels env avg [] = []
  survival_levels env avg (l ∷ ls) =
      record {
        target = times avg (plus (whole 1) l);
        reason = "ladder_" ++ env.show (over (round (times l (whole 10000))) (whole 100));
        share = elim ls [ [] ↦ whole 1 | _ ∷ _ ↦ ratio 25 100 ];
      }
      ∷ survival_levels env avg ls

  abbrev gain : Env V → World V → V
  gain env w = over (minus env.price w.state.avg_price) (max w.state.avg_price (ratio 1 1000000000))

  -- A gain that activates the trailing stop.
  abbrev pub activate : Env V → World V → World V
  activate env w =
      let on =
        w.state.trail_active || le (over env.config.trail_activate_pct (whole 100)) (gain env w) in
      record w { state = record w.state { trail_active = on } }

  -- The trailing stop at a given width, and whether it ends the evaluation.
  unfoldable pub check_trail : Env V → String → V → World V → Bool × World V
  check_trail env mint width w =
      let drop = minus (whole 1) (over env.price (max w.state.highest_price env.price)) in
      let w' = trigger_exit env mint "trailing_stop" (whole 1) w in
      if w.state.trail_active && le width drop
      then (true, record w' { state = record w'.state { trail_active = false } })
      else (false, w)

  abbrev pub extras : Env V → World V → Extras V
  extras env w = elim env.candidate [
    | none ↦ record {
      pnl_pct = gain env w;
      spread_bps = whole 0;
      volatility_bps = whole 0;
      flow_ratio = over (whole 0) (whole 1);
      slip_gap_bps = whole 0;
      rug_prob = none;
    }
    | some c ↦
        let sells = c.sells60 or_else whole 1 in
        record {
          pnl_pct = gain env w;
          spread_bps = c.spread_bps or_else whole 0;
          volatility_bps = c.spread_bps or_else whole 0;
          flow_ratio =
              if lt (whole 0) sells then over (c.buys60 or_else whole 0) sells else whole 1;
          slip_gap_bps = whole 0;
          rug_prob = c.rug_prob;
        }
  ]

  -- The survival stops, and whether they end the evaluation.
  unfoldable pub check_survival : Env V → String → World V → Bool × World V
  check_survival env mint w =
      let cfg = env.config.survival in
      let stops = compute_stops cfg (extras env w) in
      let panic = trigger_exit env mint "autokill" (whole 1) w in
      let width = max (ratio 1 100) (over stops.sell_trail_bps (whole 10000)) in
      let (trailed, w') = check_trail env mint width (activate env w) in
      let levels =
        survival_levels env w.state.avg_price
          (cfg.ladder_levels or_else ratio 5 100 ∷ ratio 12 100 ∷ ratio 22 100 ∷ []) in
      if not env.config.survival_stops
      then (false, w)
      else if le (cfg.hazard_panic or_else ratio 85 100) stops.hazard
      then (true, panic)
      else if trailed
      then (true, w')
      else if le (cfg.hazard_tighten or_else ratio 65 100) stops.hazard
      then (false, climb env mint 0 levels w')
      else (false, w')

  -- The ladder, the trailing stop and the hard stop, which come last.
  unfoldable pub check_levels : Env V → String → World V → World V
  check_levels env mint w =
      let climbed = climb env mint 0 (ladder env w.state.avg_price) w in
      let (trailed, w') =
        check_trail env mint (over env.config.trail_pct (whole 100)) (activate env climbed) in
      let stop =
        times w'.state.avg_price
          (minus (whole 1) (over env.config.hard_stop_loss_pct (whole 100))) in
      if trailed
      then w'
      else if le env.price stop
      then trigger_exit env mint "hard_stop" (whole 1) w'
      else w'

  unfoldable pub evaluate_position : Env V → String → World V → World V
  evaluate_position env mint w =
      let (killed, w1) = check_autokill env mint w in
      let (stopped, w2) = check_survival env mint w1 in
      if le w.state.quantity (whole 0)
      then w
      else if killed
      then w1
      else if stopped
      then w2
      else check_levels env mint w2
