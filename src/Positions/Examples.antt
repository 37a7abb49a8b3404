-- ===== src/Positions/Examples.antt =====
-- A position of 4 tokens bought at 2.
use trenches.Base.{
  List, ◌+◌, ◌≤◌, ◌≡◌, ◌⊎◌, refl, inl, inr, [], ◌∷◌, map, none, some, true, false, text_discrete,
}
use trenches.Base.Number.{whole, ◌≼◌}
use trenches.Base.Fixed.{Fixed, fixed_number, Fixed-IsOrdered}
use trenches.Base.Dict
use trenches.Base.Dict.{Dict}
use trenches.Positions.Fills.{
  PositionState, FillEvent, buy, sell, create_empty_state, apply_fill, apply_buy, update_mae,
}
use trenches.Util.Math.{clamp01, sigmoid}
use trenches.Positions.Stops.{
  SurvivalConfig, Extras, compute_stops, hazard_score, compute_stops-IsWithin,
}
use trenches.Positions.Exits.{Config, Env, World, trigger_exit}
use trenches.Positions.Evaluation.{climb, ladder}
use trenches.Positions.Exits.Pending.{trigger_exit-once}
use trenches.Positions.Evaluation.Ladder.{climb-once}
use trenches.Positions.Refresh.{Tick, refresh_all}
use trenches.Positions.Refresh.Stuck.{silent, refresh_all-last_price}
use trenches.Positions.Storage.{persist_all, hydrate_positions, back, hydrate-persist}
use trenches.Positions.Evaluation.Closed.{IsClean, Step, fill, continues, run, step, run-IsClean}

abbrev survival : SurvivalConfig Fixed
survival = record {
  base_trail_bps = none;
  min_trail_bps = none;
  max_trail_bps = none;
  ladder_levels = none;
  hazard_tighten = none;
  hazard_panic = none;
}

abbrev extras : Extras Fixed
extras = record {
  pnl_pct = whole 0;
  spread_bps = whole 60;
  volatility_bps = whole 60;
  flow_ratio = whole 1;
  slip_gap_bps = whole 0;
  rug_prob = none;
}

compute_stops-IsWithin_example :
    let stops = compute_stops survival extras in
    (whole 0 ≼ stops.hazard)
    × (stops.hazard ≼ whole 1)
    × (whole 60 ≼ stops.sell_trail_bps)
    × (stops.sell_trail_bps ≼ whole 250)
unfolding compute_stops clamp01 sigmoid hazard_score
compute_stops-IsWithin_example = compute_stops-IsWithin Fixed-IsOrdered survival extras refl refl

abbrev config : Config Fixed
config = record {
  autokill = record {
    flow_ratio_threshold = none;
    uniques_drop_threshold = none;
    safety_reasons = [];
  };
  survival_stops = false;
  survival = survival;
  multiplier_percents = none;
  trail_activate_pct = whole 30;
  trail_pct = whole 10;
  hard_stop_loss_pct = whole 40;
  max_spread_bps = none;
  tip_min = none;
  tip_max = none;
}

abbrev env : Env Fixed
env = record {
  config = config;
  now = 1000;
  decimals = 1;
  price = whole 5;
  candidate = none;
  random = λ reason. whole 0;
  order_id = λ reason. reason;
  show = λ x. "level";
}

abbrev bought : PositionState Fixed
bought = record {
  mint = "m";
  quantity = whole 4;
  quantity_raw = whole 40;
  avg_price = whole 2;
  realized_pnl = whole 0;
  unrealized_pnl = whole 0;
  ladder_hits = [];
  trail_active = false;
  highest_price = whole 2;
  decimals = 1;
  last_price = some (whole 2);
  entry_price = some (whole 2);
  low_water_price = some (whole 2);
  mae_bps = whole 0;
}

abbrev world : World Fixed
world = record {
  state = bought;
  pending = record { ttl_ms = 10_000; store = [] };
  last_uniques = [];
  events = [];
  orders = [];
}

trigger_exit-once_example :
    let w' = trigger_exit env "m" "hard_stop" (whole 1) world in
    (w'.orders ≡ [])
    ⊎ (9000 ≤ 1000 + 10_000
        → trigger_exit (record env { now = 9000; price = whole 3 }) "m" "hard_stop" (whole 1) w'
          ≡ w')
trigger_exit-once_example =
    trigger_exit-once env "m" "hard_stop" (whole 1) (whole 1) (whole 3) 9000 world

climb-once_example :
    let w' = record (climb env "m" 0 (ladder env (whole 2)) world) {
      pending = record { ttl_ms = 9; store = [] };
    } in
    climb (record env { now = 90_000 }) "m" 0 (ladder env (whole 2)) w' ≡ w'
climb-once_example =
    climb-once env "m" 90_000 (ladder env (whole 2)) world (record { ttl_ms = 9; store = [] })

abbrev purchase : FillEvent Fixed
purchase = record { mint = "m"; qty = whole 40; px = whole 2; side = some buy }

abbrev sale : FillEvent Fixed
sale = record { mint = "m"; qty = whole 40; px = whole 3; side = some sell }

-- A second purchase is handled while an evaluation awaits an exit, which then goes on.
abbrev steps : List (Step Fixed)
steps = fill 1 purchase ∷ fill 1 purchase ∷ continues (0 ∷ []) true ∷ fill 1 sale ∷ fill 1 sale ∷ []

run-IsClean_example :
    IsClean (run "m" steps (record world { state = create_empty_state "m" 1 })).state
unfolding step apply_fill apply_buy update_mae create_empty_state
run-IsClean_example =
    run-IsClean Fixed-IsOrdered "m" 1 steps world
      (inr refl, (inr refl, (refl, (inl refl, (inl refl, tt)))))

abbrev tick : Tick Fixed
tick = record { fetched = some (whole 1); env = λ price. record env { price = price } }

refresh_all-last_price_example :
    ((refresh_all "m" (tick ∷ tick ∷ []) world).state.last_price ≡ some (whole 2))
    × (refresh_all "m" (tick ∷ tick ∷ []) world
        ≡ refresh_all "m" (map silent (tick ∷ tick ∷ [])) world)
refresh_all-last_price_example =
    refresh_all-last_price "m" (tick ∷ tick ∷ []) world (whole 2) refl refl

abbrev half_sold : PositionState Fixed
half_sold = record bought { ladder_hits = 0 ∷ []; trail_active = true; highest_price = whole 9 }

-- One position is open, and one is sold out.
abbrev held : Dict (PositionState Fixed)
held =
    ("m", half_sold)
    ∷ ("n", record bought { mint = "n"; quantity = whole 0; quantity_raw = whole 0 })
    ∷ []

hydrate-persist_example :
    Dict.get "n" (hydrate_positions (λ text. some 0) (λ mint. 1) (persist_all (λ n. "0") held))
    ≡ back (Dict.get "n" held)
unfolding Dict.get text_discrete
hydrate-persist_example =
    hydrate-persist (λ n. "0") (λ text. some 0) (λ mint. 1) held "n" (refl, (refl, tt))
      (refl, refl, (refl, tt), (refl, refl, tt, tt))
