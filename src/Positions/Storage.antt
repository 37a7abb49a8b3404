-- ===== src/Positions/Storage.antt =====
-- services/position-manager/src/index.ts: what a position leaves in the store and what a restart reads
-- (`persistPosition`, `hydratePositions`, with `listOpenPositions` of packages/persistence/src/sqlite.ts).
-- `String` and `Number` of a ladder level are arguments.
use trenches.Base.{
  ℕ, All, ◌∙◌, ◌≡◌, refl, ap, List, [], ◌∷◌, map, Option, none, some, Bool, String, if◌then◌else◌,
  ◌or_else◌, filter, arith,
}
use trenches.Base.Dict
use trenches.Base.Dict.{Dict, IsDict}
use trenches.Base.Number.{Number, whole}
use trenches.Positions.Fills.{PositionState, pow10}

pub record PositionRow (V : Type 0) : Type 0 where
  pub mint : String
  pub quantity : V
  pub average_price : V
  pub realized_pnl : V
  pub unrealized_pnl : V
  pub is_open : Bool
  pub ladder_hits : List String
  pub trail_active : Bool
  pub mae_bps : Option V

-- The levels that are numbers.
unfoldable pub read_hits : (String → Option ℕ) → List String → List ℕ
read_hits parse [] = []
read_hits parse (x ∷ xs) = elim (parse x) [
  | none ↦ read_hits parse xs
  | some n ↦ n ∷ read_hits parse xs
]

read_hits-show :
    (show : ℕ → String) (parse : String → Option ℕ) (hits : List ℕ)
    → All (λ n. parse (show n) ≡ some n) hits
    → read_hits parse (map show hits) ≡ hits
unfolding read_hits
read_hits-show show parse [] h = refl
read_hits-show show parse (n ∷ ns) h = rw h.0 (ap (◌∷◌ n) (read_hits-show show parse ns h.1))

module _ {V : Type 0} ⦃d : Number V⦄ where
  open d use {times, lt}

  unfoldable pub persist_position : (ℕ → String) → PositionState V → PositionRow V
  persist_position show s = record {
    mint = s.mint;
    quantity = s.quantity;
    average_price = s.avg_price;
    realized_pnl = s.realized_pnl;
    unrealized_pnl = s.unrealized_pnl;
    is_open = lt (whole 0) s.quantity;
    ladder_hits = map show s.ladder_hits;
    trail_active = s.trail_active;
    mae_bps = some s.mae_bps;
  }

  abbrev pub if_open : V → V → Option V
  if_open quantity price = if lt (whole 0) quantity then some price else none

  -- What is given back of a position with some quantity: the average price for the highest one, for
  -- the entry and for the low, no last price, and the raw quantity computed again.
  abbrev pub restarted : PositionState V → PositionState V
  restarted s = record s {
    quantity_raw = times s.quantity (whole (pow10 s.decimals));
    highest_price = s.avg_price;
    last_price = none;
    entry_price = if_open s.quantity s.avg_price;
    low_water_price = if_open s.quantity s.avg_price;
  }

  -- One row of `hydratePositions`.
  unfoldable pub hydrate_position : (String → Option ℕ) → ℕ → PositionRow V → PositionState V
  hydrate_position parse decimals row = record {
    mint = row.mint;
    quantity = row.quantity;
    quantity_raw = times row.quantity (whole (pow10 decimals));
    avg_price = row.average_price;
    realized_pnl = row.realized_pnl;
    unrealized_pnl = row.unrealized_pnl;
    ladder_hits = read_hits parse row.ladder_hits;
    trail_active = row.trail_active;
    highest_price = row.average_price;
    decimals = decimals;
    last_price = none;
    entry_price = if_open row.quantity row.average_price;
    low_water_price = if_open row.quantity row.average_price;
    mae_bps = row.mae_bps or_else whole 0;
  }

  -- `listOpenPositions`, which leaves out the rows that are closed, and the loop of `hydratePositions`
  -- over its rows.
  unfoldable pub list_open_positions : List (PositionRow V) → List (PositionRow V)
  list_open_positions = filter (λ row. row.is_open)

  unfoldable pub hydrate_rows :
      (String → Option ℕ)
      → (String → ℕ)
      → List (PositionRow V)
      → Dict (PositionState V)
      → Dict (PositionState V)
  hydrate_rows parse decimals [] positions = positions
  hydrate_rows parse decimals (row ∷ rows) positions =
      hydrate_rows parse decimals rows
        (Dict.put row.mint (hydrate_position parse (decimals row.mint) row) positions)

  unfoldable pub hydrate_positions :
      (String → Option ℕ) → (String → ℕ) → List (PositionRow V) → Dict (PositionState V)
  hydrate_positions parse decimals rows = hydrate_rows parse decimals (list_open_positions rows) []

  hydrate-one :
      (show : ℕ → String) (parse : String → Option ℕ) (s : PositionState V)
      → All (λ n. parse (show n) ≡ some n) s.ladder_hits
      → hydrate_position parse s.decimals (persist_position show s) ≡ restarted s
  unfolding hydrate_position persist_position
  hydrate-one show parse s h =
      ap (λ (hits : List ℕ). record (restarted s) { ladder_hits = hits })
        (read_hits-show show parse s.ladder_hits h)

  -- What the store holds of the positions, in the order of the map.
  unfoldable pub persist_all : (ℕ → String) → Dict (PositionState V) → List (PositionRow V)
  persist_all show [] = []
  persist_all show ((mint, s) ∷ m) = persist_position show s ∷ persist_all show m

  -- The position that is given back.
  abbrev pub back : Option (PositionState V) → Option (PositionState V)
  back none = none
  back (some s) = if lt (whole 0) s.quantity then some (restarted s) else none

  -- A position is filed under its mint, has that mint's decimals, and its ladder levels read back.
  abbrev pub IsStorable :
      (ℕ → String) → (String → Option ℕ) → (String → ℕ) → Dict (PositionState V) → Type 0
  IsStorable show parse decimals [] = Unit
  IsStorable show parse decimals ((mint, s) ∷ m) =
      (s.mint ≡ mint)
      × (decimals mint ≡ s.decimals)
      × All (λ n. parse (show n) ≡ some n) s.ladder_hits
      × IsStorable show parse decimals m

  abbrev restored :
      (ℕ → String)
      → (String → Option ℕ)
      → (String → ℕ)
      → Dict (PositionState V)
      → Dict (PositionState V)
      → Dict (PositionState V)
  restored show parse decimals m acc =
      hydrate_rows parse decimals (list_open_positions (persist_all show m)) acc

  restored-cons :
      (show : ℕ → String) (parse : String → Option ℕ) (decimals : String → ℕ) (mint : String)
      (s : PositionState V) (m acc : Dict (PositionState V))
      → IsStorable show parse decimals ((mint, s) ∷ m)
      → restored show parse decimals ((mint, s) ∷ m) acc
        ≡ restored show parse decimals m
            (if lt (whole 0) s.quantity then Dict.put mint (restarted s) acc else acc)
  unfolding hydrate_rows list_open_positions persist_all persist_position
  restored-cons show parse decimals mint s m acc h =
      ground (arith, hydrate-one show parse s h.2, h.0, h.1)

  get-restored :
      (show : ℕ → String) (parse : String → Option ℕ) (decimals : String → ℕ)
      (m acc : Dict (PositionState V)) (mint : String)
      → IsDict m
      → IsStorable show parse decimals m
      → Dict.get mint (restored show parse decimals m acc)
        ≡ (elim (back (Dict.get mint m)) [ none ↦ Dict.get mint acc | some s ↦ some s ])
  unfolding hydrate_rows list_open_positions persist_all Dict.get
  get-restored show parse decimals [] acc mint u h = refl
  get-restored show parse decimals ((k, s) ∷ m) acc mint u h =
      let acc' = if lt (whole 0) s.quantity then Dict.put k (restarted s) acc else acc in
      ap (Dict.get mint) (restored-cons show parse decimals k s m acc h)
      ∙ get-restored show parse decimals m acc' mint u.1 h.3
      ∙ ground (arith, u, Dict.get-put k mint (restarted s) acc)

  -- If each position is filed under its mint, has the decimals that a restart finds, and has ladder
  -- levels that read back, a restart gives exactly the positions with some quantity back: with the
  -- average price for the highest one, for the entry and for the low, no last price, the raw
  -- quantity computed again, and all else as it was. A position without quantity is not given back.
  pub hydrate-persist :
      (show : ℕ → String) (parse : String → Option ℕ) (decimals : String → ℕ)
      (m : Dict (PositionState V)) (mint : String)
      → IsDict m
      → IsStorable show parse decimals m
      → Dict.get mint (hydrate_positions parse decimals (persist_all show m))
        ≡ back (Dict.get mint m)
  unfolding hydrate_positions Dict.get
  hydrate-persist show parse decimals m mint u h =
      get-restored show parse decimals m [] mint u h ∙ ground arith
