-- ===== src/Positions/Exits.antt =====
-- services/position-manager/src/index.ts: the exits (`triggerExit`). `Date.now()`,
-- the random draws, the printing of numbers and the row that the candidate is read from are
-- arguments; one evaluation happens at one instant, and evaluations come one after the other. The
-- answer of the executor changes nothing in the manager, so an order is what is posted to it.
pub mod Pending
use trenches.Base.{
  ℕ, zero, suc, ◌+◌, ◌*◌, List, [], ◌∷◌, Option, none, some, Bool, true, false, not, ◌&&◌, ◌||◌,
  ◌or_else◌, String, if◌then◌else◌, ◌==◌, ite, text_discrete,
}
use trenches.Base.Dict
use trenches.Base.Dict.{Dict}
use trenches.Base.Number.{Number, whole}
use trenches.Util.TtlCache
use trenches.Util.TtlCache.{TtlCache}
use trenches.Positions.Fills.{PositionState, pow10}
use trenches.Positions.Stops.{SurvivalConfig, Extras, compute_stops}
use Prim.Native.String.{◌++◌}
use text.Mathlib.Text.{starts_with}

pub record Candidate (V : Type 0) : Type 0 where
  pub safety_ok : Bool
  pub safety_reasons : List String
  pub buys60 : Option V
  pub sells60 : Option V
  pub uniques60 : Option V
  pub spread_bps : Option V
  pub rug_prob : Option V

pub record AutokillConfig (V : Type 0) : Type 0 where
  pub flow_ratio_threshold : Option V
  pub uniques_drop_threshold : Option V
  pub safety_reasons : List String

pub record Config (V : Type 0) : Type 0 where
  pub autokill : AutokillConfig V
  pub survival_stops : Bool
  pub survival : SurvivalConfig V
  pub multiplier_percents : Option (List V)
  pub trail_activate_pct : V
  pub trail_pct : V
  pub hard_stop_loss_pct : V
  pub max_spread_bps : Option V
  pub tip_min : Option V
  pub tip_max : Option V

-- What an evaluation reads from outside: `random` and `order_id` by the reason of the exit.
pub record Env (V : Type 0) : Type 0 where
  pub config : Config V
  pub now : ℕ
  pub decimals : ℕ
  pub price : V
  pub candidate : Option (Candidate V)
  pub random : String → V
  pub order_id : String → String
  pub show : V → String

-- The fields of an order plan that are not constant; the mint's tokens are sold.
pub record OrderPlan (V : Type 0) : Type 0 where
  pub mint : String
  pub size_sol : V
  pub slippage_bps : V
  pub jito_tip_lamports : V
  pub token_amount_lamports : V
  pub client_order_id : String

pub record ExitEvent (V : Type 0) : Type 0 where
  pub mint : String
  pub reason : String
  pub pnl : V

-- What an evaluation changes: the state of its position, the exits under way, the unique traders
-- last seen, and, newest first, the events logged and the orders posted.
pub record World (V : Type 0) : Type 0 where
  pub state : PositionState V
  pub pending : TtlCache Bool
  pub last_uniques : Dict V
  pub events : List (ExitEvent V)
  pub orders : List (OrderPlan V)

abbrev pub exit_key : String → String → String
exit_key mint reason = mint ++ ":" ++ reason

abbrev mapped_reason : String → String
mapped_reason reason =
    if starts_with reason "ladder_"
    then "tp"
    else if ite (text_discrete reason "trailing_stop") true false
    then "trail"
    else if ite (text_discrete reason "hard_stop") true false
    then "stop"
    else "autokill"

module _ {V : Type 0} ⦃d : Number V⦄ where
  open d use {ratio, infinity, plus, minus, times, over, le, lt, min, max, floor, round}

  abbrev pick_exit_tip : Config V → V → V
  pick_exit_tip config random =
      let lo = config.tip_min or_else whole 1500000 in
      let hi = config.tip_max or_else whole 2500000 in
      floor (plus lo (times random (max (whole 1) (minus hi lo))))

  abbrev pub quantity_to_sell : V → PositionState V → V
  quantity_to_sell share s = times s.quantity (min (max share (whole 0)) (whole 1))

  abbrev order_plan : Env V → String → String → V → World V → OrderPlan V
  order_plan env mint reason quantity w = record {
    mint = mint;
    size_sol = times quantity env.price;
    slippage_bps = min (max (env.config.max_spread_bps or_else whole 150) (whole 50)) (whole 400);
    jito_tip_lamports = pick_exit_tip env.config (env.random reason);
    token_amount_lamports = max (floor (times quantity (whole (pow10 env.decimals)))) (whole 1);
    client_order_id = env.order_id reason;
  }

  unfoldable pub trigger_exit : Env V → String → String → V → World V → World V
  trigger_exit env mint reason share w =
      let key = exit_key mint reason in
      let (found, pending) = TtlCache.get key env.now w.pending in
      let quantity = quantity_to_sell share w.state in
      if (found or_else false) || (le w.state.quantity (whole 0) || le quantity (whole 0))
      then record w { pending = pending }
      else record w {
        pending = TtlCache.set key true env.now pending;
        events =
            record {
              mint = mint;
              reason = mapped_reason reason;
              pnl = times (minus env.price w.state.avg_price) quantity;
            }
            ∷ w.events;
        orders = order_plan env mint reason quantity w ∷ w.orders;
      }
