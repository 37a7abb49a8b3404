-- ===== src/Policy/Sizing/Examples.antt =====
-- A wallet of 10 SOL, and a token with a pool of 40.
use trenches.Base.{ℕ, ◌≡◌, refl, [], none, some, true, false}
use trenches.Base.Number.{whole, ◌≼◌}
use trenches.Base.Fixed.{Fixed, fixed_number, Fixed-IsOrdered, lt, le}
use trenches.Policy.Sizing.{
  WalletConfig, Candidate, WalletSnapshot, ok, compute_sizing, risk_fraction, size_within,
  is_boosted, tier_fraction,
}
use trenches.Policy.Sizing.Bounds.{Respects, compute_sizing-Respects, risk_fraction_boosted}

abbrev cents : ℕ → Fixed
cents n = fixed_number.ratio n 100

abbrev config : WalletConfig Fixed
config = record {
  tiers = [];
  last_tier = record { min_equity = whole 0; max_equity = none; risk_fraction = cents 25 };
  concurrency_cap = whole 3;
  per_name_cap_fraction = cents 20;
  per_name_cap_max_sol = none;
  lp_impact_cap_fraction = cents 5;
  flow_cap_rewrite = none;
  flow_trades_per_5m = none;
  flow_cap_min_sol = none;
  flow_cap_fraction = cents 50;
  daily_spend_cap_pct = none;
  daily_spend_cap_sol = none;
  scaler_base = whole 1;
  scaler_max = whole 2;
}

abbrev token : Candidate Fixed
token = record {
  social_sss = some (whole 9);
  social_velocity = some (whole 9);
  alpha_score = some (whole 9);
  lp_sol = some (whole 40);
  buys60 = some (whole 20);
  sells60 = some (whole 10);
}

abbrev wallet : WalletSnapshot Fixed
wallet = record {
  equity = whole 10;
  free = whole 8;
  spend_used = whole 1;
  open_positions = whole 1;
}

compute_sizing-Respects_example :
    let r = compute_sizing config token wallet (whole 1) in
    (whole 0 ≼ r.size)
    × (r.size ≼ wallet.free)
    × Respects r.size r.caps
    × (r.reason ≡ ok
        → (lt (whole 0) r.size ≡ true) × (le config.concurrency_cap wallet.open_positions ≡ false))
unfolding compute_sizing size_within risk_fraction
compute_sizing-Respects_example =
    compute_sizing-Respects Fixed-IsOrdered config token wallet (whole 1) refl (record {
      risk = refl;
      per_name = refl;
      lp_impact = refl;
      flow = refl;
      daily = refl;
      multiplier = refl;
    })

risk_fraction_boosted_example : risk_fraction config token (whole 10) ≼ cents 40
unfolding is_boosted tier_fraction
risk_fraction_boosted_example =
    risk_fraction_boosted Fixed-IsOrdered config token (whole 10) refl refl
