-- ===== src/Policy/Constrained/Examples.antt =====
-- A wallet of 10 SOL with a cap of 200 dollars on each token.
use trenches.Base.{[], ◌∷◌, none, some, true, ◌≡◌, refl}
use trenches.Base.Number.{whole}
use trenches.Base.Fixed.{Fixed, fixed_number, Fixed-IsOrdered}
use trenches.Policy.Constrained.{
  Settings, SizingContext, all_caps, best_arm, candidates, notional_raw,
}
use trenches.Policy.Constrained.Caps.{
  IsCapped, name_fraction, name_limit, notional_raw-IsWithinCaps,
}

abbrev settings : Settings Fixed
settings = record {
  arms =
      ("equity_frac:0.1", fixed_number.ratio 1 10)
      ∷ ("equity_frac:0.5", fixed_number.ratio 1 2)
      ∷ [];
  per_name_cap_fraction = none;
  per_name_cap_max_sol = none;
  per_mint_cap_usd = some (whole 200);
  risk_scaling = true;
  price_from_db = some (whole 100);
  price_hint = none;
  to_fixed = λ x. x;
}

abbrev context : SizingContext Fixed
context = record {
  wallet_equity = whole 10;
  wallet_free = whole 8;
  daily_spend_used = whole 1;
  per_name_fraction = fixed_number.ratio 3 10;
  per_name_max_sol = whole 4;
  daily_spend_cap_sol = whole 5;
  rug_prob = none;
  p_fill = none;
  exp_slip_bps = none;
}

notional_raw_run : notional_raw settings context ≡ whole 2
unfolding notional_raw all_caps candidates
notional_raw_run = refl

notional_raw-IsWithinCaps_example :
    let z = notional_raw settings context in
    IsCapped Fixed-IsOrdered z (best_arm (candidates settings context)).1
    × IsCapped Fixed-IsOrdered z (fixed_number.max (whole 0) context.wallet_free)
    × IsCapped Fixed-IsOrdered z (name_limit Fixed-IsOrdered settings context)
    × (fixed_number.is_finite (name_fraction Fixed-IsOrdered settings context) ≡ true
        → IsCapped Fixed-IsOrdered z (
            fixed_number.times context.wallet_equity
              (name_fraction Fixed-IsOrdered settings context)))
    × (fixed_number.is_finite context.daily_spend_cap_sol ≡ true
        → IsCapped Fixed-IsOrdered z (
            fixed_number.max
              (whole 0)
              (fixed_number.minus context.daily_spend_cap_sol context.daily_spend_used)))
    × ((usd price : Fixed)
        → settings.per_mint_cap_usd ≡ some usd
        → settings.price_from_db ≡ some price
        → fixed_number.lt (whole 0) usd ≡ true
        → fixed_number.lt (whole 0) price ≡ true
        → IsCapped Fixed-IsOrdered z (fixed_number.over usd price))
notional_raw-IsWithinCaps_example = notional_raw-IsWithinCaps Fixed-IsOrdered settings context
