-- ===== src/Policy/Leader/Examples.antt =====
-- A boost at a concrete wallet.
use trenches.Base.{refl, [], ◌∷◌, none, some, true}
use trenches.Base.Number.{whole}
use trenches.Base.Fixed.{Fixed, fixed_number, Fixed-IsOrdered}
use trenches.Policy.Sizing.{Candidate}
use trenches.Policy.Leader.{
  LeaderWalletConfig, LeaderBoostInfo, LeaderWallet, WalletCapsConfig, boosted,
  apply_leader_size_boost,
}
use trenches.Policy.Leader.Boost.{
  IsCapped, IsWithinName, IsWithinImpact, IsWithinFlow, boost-IsBelowUsed,
}

abbrev config : LeaderWalletConfig Fixed
config = record { enabled = true; min_hits_for_boost = 2; size_tier_boost = whole 2 }

abbrev info : LeaderBoostInfo
info = record { pool = some "pool"; applied = true; hits = 2; wallets = "w" ∷ [] }

abbrev token : Candidate Fixed
token = record {
  social_sss = none;
  social_velocity = none;
  alpha_score = none;
  lp_sol = some (whole 40);
  buys60 = some (whole 20);
  sells60 = some (whole 10);
}

abbrev wallet : LeaderWallet Fixed
wallet = record { equity = whole 10; free = whole 8; spend_remaining = whole 2 }

abbrev caps : WalletCapsConfig Fixed
caps = record {
  per_name_cap_fraction = fixed_number.ratio 1 2;
  per_name_cap_max_sol = none;
  lp_impact_cap_fraction = fixed_number.ratio 1 10;
  flow_cap_fraction = fixed_number.ratio 1 2;
  flow_trades_per_5m = none;
  flow_cap_min_sol = none;
}

boost-IsBelowUsed_example :
    let z = apply_leader_size_boost (whole 3) token wallet config info caps in
    IsCapped Fixed-IsOrdered z wallet.free
    × IsCapped Fixed-IsOrdered z wallet.spend_remaining
    × IsWithinName Fixed-IsOrdered z wallet caps
    × IsWithinImpact Fixed-IsOrdered z token caps
    × IsWithinFlow Fixed-IsOrdered z token caps
unfolding boosted
boost-IsBelowUsed_example =
    boost-IsBelowUsed Fixed-IsOrdered (whole 3) token wallet config info caps refl refl refl refl
      refl
