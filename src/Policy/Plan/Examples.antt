-- ===== src/Policy/Plan/Examples.antt =====
-- A candidate of a young pool, with a wallet that can pay for it.
use trenches.Base.{[], ◌∷◌, none, some, true}
use trenches.Base.Dict
use trenches.Base.Number.{whole}
use trenches.Base.Fixed.{Fixed, fixed_number}
use trenches.Policy.Bandit.{BanditAction}
use trenches.Policy.Alpha.{AlphaConfig}
use trenches.Policy.Plan.{Candidate, Wallet, Limits, Ledger, TipConfig, OrderPlan, Situation}

abbrev candidate : Candidate Fixed
candidate = record {
  mint = "Mint";
  age_sec = whole 45;
  lp_sol = whole 60;
  buys60 = whole 20;
  sells60 = whole 10;
  uniques60 = whole 12;
  spread_bps = whole 40;
  rug_prob = some (fixed_number.ratio 1 2);
  safety_ok = true;
}

abbrev wallet : Wallet Fixed
wallet = record { ready = true; equity = whole 10; free = whole 6; spend_remaining = whole 2 }

abbrev limits : Limits Fixed
limits = record {
  min_free_sol = some (whole 1);
  daily_loss_cap_pct = fixed_number.ratio 1 10;
  max_open_positions = some 3;
  max_daily_new = some 9;
  daily_loss_cap_usd = some (whole 100);
}

abbrev ledger : Ledger Fixed
ledger = record {
  daily_realized_pnl = whole 0;
  open_positions = some 1;
  new_positions_today = some 2;
  daily_pnl_usd = some (whole 5);
}

abbrev tips : TipConfig Fixed
tips = record { jito_enabled = true; ranges = none }

abbrev action : BanditAction Fixed
action = record {
  id = "a";
  gate = "normal";
  slippage_bps = whole 400;
  tip_percentile = "p50";
  size_multiplier = whole 1;
}

abbrev alpha : AlphaConfig Fixed
alpha = record {
  alpha_ranker = true;
  top_k = 2;
  min_score = fixed_number.ratio 52 100;
  rank_boost = fixed_number.ratio 3 100;
}

-- The score is enough only with the boost.
abbrev situation : Situation Fixed
situation = record {
  now = 400_000;
  leader = true;
  answers = some (some (record { score = fixed_number.ratio 1 2; updated_at = 390_000 }) ∷ []);
  wallet = wallet;
  ledger = ledger;
  action = action;
  size = whole 1;
  reason = "caps";
  random = whole 0;
  id = "id";
}

abbrev plan : OrderPlan Fixed
plan = record {
  mint = "Mint";
  gate = "normal";
  size_sol = whole 1;
  slippage_bps = whole 400;
  jito_tip_lamports = whole 500000;
  client_order_id = "id";
}
