-- ===== src/Positions/Fills.antt =====
-- services/position-manager/src/index.ts: the state of a position, what a fill does to it, and its
-- maximum adverse excursion (`createEmptyState`, `handleFillEvent`, `updateMae`). The metrics and the
-- logged sizing outcome, which the manager never reads back, are left out.
use trenches.Base.{
  ℕ, zero, suc, ◌*◌, List, [], ◌∷◌, Option, none, some, Bool, true, false, not, ◌&&◌, ◌||◌,
  ◌or_else◌, String, if◌then◌else◌,
}
use trenches.Base.Dict
use trenches.Base.Dict.{Dict}
use trenches.Base.Number.{Number, whole}
use trenches.Util.TtlCache
use trenches.Util.TtlCache.{TtlCache}
use Prim.Native.String.{◌++◌}
use text.Mathlib.Text.{starts_with}

pub record PositionState (V : Type 0) : Type 0 where
  pub mint : String
  pub quantity : V
  pub quantity_raw : V
  pub avg_price : V
  pub realized_pnl : V
  pub unrealized_pnl : V
  pub ladder_hits : List ℕ
  pub trail_active : Bool
  pub highest_price : V
  pub decimals : ℕ
  pub last_price : Option V
  pub entry_price : Option V
  pub low_water_price : Option V
  pub mae_bps : V

pub data Side : Type 0 where
  buy sell : Side

pub record FillEvent (V : Type 0) : Type 0 where
  pub mint : String
  pub qty : V
  pub px : V
  pub side : Option Side

-- The open positions by mint and the exits under way.
pub record Manager (V : Type 0) : Type 0 where
  pub positions : Dict (PositionState V)
  pub pending : TtlCache Bool

abbrev pub pow10 : ℕ → ℕ
pow10 zero = 1
pow10 (suc n) = 10 * pow10 n

abbrev is_buy : Option Side → Bool
is_buy (some sell) = false
is_buy _ = true

-- The loop that forgets the exits of the mint that are under way.
unfoldable pub delete_all : String → Dict Bool → TtlCache Bool → TtlCache Bool
delete_all start [] c = c
delete_all start ((key, _) ∷ rest) c =
    let c' = if starts_with key start then TtlCache.delete key c else c in delete_all start rest c'

module _ {V : Type 0} ⦃d : Number V⦄ where
  open d use {plus, minus, times, over, le, lt, eq, min, max}

  unfoldable pub create_empty_state : String → ℕ → PositionState V
  create_empty_state mint decimals = record {
    mint = mint;
    quantity = whole 0;
    quantity_raw = whole 0;
    avg_price = whole 0;
    realized_pnl = whole 0;
    unrealized_pnl = whole 0;
    ladder_hits = [];
    trail_active = false;
    highest_price = whole 0;
    decimals = decimals;
    last_price = none;
    entry_price = none;
    low_water_price = none;
    mae_bps = whole 0;
  }

  -- A number is true unless it is 0 or NaN.
  abbrev pub is_truthy : V → Bool
  is_truthy x = eq x x && not (eq x (whole 0))

  -- No entry price, or one that is not positive.
  abbrev lacks_entry : Option V → Bool
  lacks_entry none = true
  lacks_entry (some x) = le x (whole 0)

  abbrev lowest : Option V → V → V
  lowest none price = price
  lowest (some low) price = min low price

  abbrev record_low : V → PositionState V → PositionState V
  record_low low s =
      let entry = s.entry_price or_else whole 0 in
      if lt (whole 0) entry && lt low entry
      then record s {
        low_water_price = some low;
        mae_bps = max s.mae_bps (times (over (minus entry low) entry) (whole 10000));
      }
      else record s { low_water_price = some low }

  unfoldable pub update_mae : V → PositionState V → PositionState V
  update_mae price s =
      if le s.quantity (whole 0) || not (eq price price)
      then s
      else if lacks_entry s.entry_price
      then record s {
        entry_price = some (if lt (whole 0) s.avg_price then s.avg_price else price);
        low_water_price = some price;
        mae_bps = whole 0;
      }
      else record_low (lowest s.low_water_price price) s

  -- The branch of a buy, with the quantity in tokens.
  unfoldable pub apply_buy : V → V → V → PositionState V → PositionState V
  apply_buy qty qty_tokens px s =
      let total_cost = plus (times s.avg_price s.quantity) (times px qty_tokens) in
      let quantity = plus s.quantity qty_tokens in
      let avg_price = if lt (whole 0) quantity then over total_cost quantity else whole 0 in
      let s' = record s {
        quantity = quantity;
        quantity_raw = plus s.quantity_raw qty;
        avg_price = avg_price;
        highest_price = max s.highest_price px;
      } in
      if lt (whole 0) quantity
      then (if le s.quantity (whole 0)
          then record s' {
            entry_price = some avg_price;
            low_water_price = some px;
            mae_bps = whole 0;
          }
          else record s' { entry_price = some avg_price })
      else s'

  -- What closing a position resets.
  abbrev closed : PositionState V → PositionState V
  closed s = record s {
    quantity = whole 0;
    quantity_raw = whole 0;
    ladder_hits = [];
    trail_active = false;
    highest_price = s.avg_price;
    entry_price = none;
    low_water_price = none;
    mae_bps = whole 0;
  }

  unfoldable pub apply_sell : V → V → V → PositionState V → PositionState V
  apply_sell qty qty_tokens px s =
      let sell_qty = min s.quantity qty_tokens in
      let pnl = times (minus px s.avg_price) sell_qty in
      let s' = record s {
        quantity = max (minus s.quantity sell_qty) (whole 0);
        quantity_raw = max (minus s.quantity_raw qty) (whole 0);
        realized_pnl = plus s.realized_pnl pnl;
      } in
      if le s'.quantity (whole 0) then closed s' else s'

  -- The fill on the state of its mint, in one step; a sale that closes the position awaits the oracle
  -- before it resets the entry.
  unfoldable pub apply_fill : ℕ → FillEvent V → PositionState V → PositionState V
  apply_fill decimals event s =
      let qty_tokens = over event.qty (whole (pow10 decimals)) in
      let s1 =
        if is_buy event.side
        then apply_buy event.qty qty_tokens event.px s
        else apply_sell event.qty qty_tokens event.px s in
      let s2 = record s1 {
        last_price = some event.px;
        decimals = decimals;
        unrealized_pnl =
            if is_truthy event.px
            then times (minus event.px s1.avg_price) s1.quantity
            else s1.unrealized_pnl;
      } in
      update_mae event.px s2

  unfoldable pub handle_fill_event : ℕ → ℕ → FillEvent V → Manager V → Manager V
  handle_fill_event decimals now event m =
      let s = Dict.get event.mint m.positions or_else create_empty_state event.mint decimals in
      let (live, pending) = TtlCache.entries now m.pending in
      record {
        positions = Dict.put event.mint (apply_fill decimals event s) m.positions;
        pending = delete_all (event.mint ++ ":") live pending;
      }
