-- ===== src/Positions/Refresh.antt =====
-- services/position-manager/src/index.ts (`refreshPrices`): one position's round of the loop. What the
-- oracle would answer, and the surroundings of the evaluation at a price, are arguments.
pub mod Stuck
use trenches.Base.{List, [], ◌∷◌, Option, none, some, Bool, true, false, String, if◌then◌else◌}
use trenches.Base.Number.{Number, whole}
use trenches.Positions.Fills.{PositionState, is_truthy, update_mae}
use trenches.Positions.Exits.{Env, World}
use trenches.Positions.Evaluation.{evaluate_position}

module _ {V : Type 0} ⦃d : Number V⦄ where
  open d use {minus, times, le, max}

  -- A price that is there and is neither 0 nor NaN.
  abbrev pub usable : Option V → Option V
  usable none = none
  usable (some p) = if is_truthy p then some p else none

  -- `state.lastPrice ?? undefined`, or else what the oracle says.
  abbrev pub first_of : Option V → Option V → Option V
  first_of none fetched = usable fetched
  first_of (some p) fetched = some p

  abbrev pub current_price : Option V → PositionState V → Option V
  current_price fetched s = first_of (usable s.last_price) fetched

  -- The state with the price.
  unfoldable pub mark : V → PositionState V → PositionState V
  mark price s = update_mae price (record s {
    last_price = some price;
    unrealized_pnl = times (minus price s.avg_price) s.quantity;
    highest_price = max s.highest_price price;
  })

  abbrev pub refresh_at : (V → Env V) → String → World V → Option V → World V
  refresh_at env mint w none = w
  refresh_at env mint w (some price) =
      evaluate_position (env price) mint (record w { state = mark price w.state })

  unfoldable pub refresh_position : Option V → (V → Env V) → String → World V → World V
  refresh_position fetched env mint w =
      if le w.state.quantity (whole 0)
      then w
      else refresh_at env mint w (current_price fetched w.state)

-- A tick of the timer: what the oracle would answer, and the surroundings.
pub record Tick (V : Type 0) : Type 0 where
  pub fetched : Option V
  pub env : V → Env V

module _ {V : Type 0} ⦃d : Number V⦄ where
  unfoldable pub refresh_all : String → List (Tick V) → World V → World V
  refresh_all mint [] w = w
  refresh_all mint (t ∷ ts) w = refresh_all mint ts (refresh_position t.fetched t.env mint w)
