-- ===== src/Policy/Leader.antt =====
-- services/policy-engine/src/leader.ts. The rows that `getRecentLeaderHits` reads are an argument.
pub mod Boost
mod Examples
use trenches.Base.{
  ℕ, List, [], ◌∷◌, Option, none, some, Bool, true, false, not, ◌&&◌, ◌||◌, ◌or_else◌, String, ite,
  leb, length, take, filter, if◌then◌else◌, text_discrete,
}
use trenches.Base.Number.{Number, whole}
use trenches.Policy.Sizing.{WalletConfig, Candidate}

pub record LeaderWalletConfig (V : Type 0) : Type 0 where
  pub enabled : Bool
  pub min_hits_for_boost : ℕ
  pub size_tier_boost : V

pub record LeaderBoostInfo : Type 0 where
  pub pool : Option String
  pub applied : Bool
  pub hits : ℕ
  pub wallets : List String

-- The fields of the policy's wallet snapshot that are read here.
pub record LeaderWallet (V : Type 0) : Type 0 where
  pub equity : V
  pub free : V
  pub spend_remaining : V

pub record WalletCapsConfig (V : Type 0) : Type 0 where
  pub per_name_cap_fraction : V
  pub per_name_cap_max_sol : Option V
  pub lp_impact_cap_fraction : V
  pub flow_cap_fraction : V
  pub flow_trades_per_5m : Option V
  pub flow_cap_min_sol : Option V

-- `Array.from(new Set(wallets))`: the first occurrences.
unfoldable pub unique : List String → List String
unique [] = []
unique (x ∷ xs) = x ∷ filter (λ y. ite (text_discrete x y) false true) (unique xs)

abbrev truthy : Option String → Bool
truthy none = false
truthy (some s) = ite (text_discrete s "") false true

-- `hits` has the wallet of each row; `pool` is `candidate.poolAddress ?? candidate.lpMint ?? null`.
unfoldable pub compute_leader_boost_info :
    {V : Type 0} → Option String → LeaderWalletConfig V → List String → LeaderBoostInfo
unfolding unique
compute_leader_boost_info pool cfg hits =
    if not cfg.enabled || not (truthy pool)
    then record { pool = pool; applied = false; hits = 0; wallets = [] }
    else record {
      pool = pool;
      applied = leb cfg.min_hits_for_boost (length hits);
      hits = length hits;
      wallets = take 5 (unique hits);
    }

module _ {V : Type 0} ⦃d : Number V⦄ where
  open d use {ratio, infinity, plus, times, over, le, lt, min, max, is_finite}

  -- The five caps, in the order of the source.
  unfoldable pub cap_values : Candidate V → LeaderWallet V → WalletCapsConfig V → List V
  cap_values c w caps =
      let per_mint =
        min (times caps.per_name_cap_fraction w.equity)
          (caps.per_name_cap_max_sol or_else infinity) in
      let lp_sol = max (c.lp_sol or_else whole 0) (whole 0) in
      let trades = max (plus (c.buys60 or_else whole 0) (c.sells60 or_else whole 0)) (whole 0) in
      let flow_ref = max (caps.flow_trades_per_5m or_else whole 60) (whole 1) in
      let scale = min (whole 1) (over trades flow_ref) in
      let capacity = max (times lp_sol scale) (caps.flow_cap_min_sol or_else whole 0) in
      w.free
      ∷ w.spend_remaining
      ∷ per_mint
      ∷ times caps.lp_impact_cap_fraction lp_sol
      ∷ times caps.flow_cap_fraction capacity
      ∷ []

  -- `Number.isFinite(value) && value > 0`.
  abbrev pub is_used : V → Bool
  is_used x = is_finite x && lt (whole 0) x

  -- `Math.min(...values)` of one value and more.
  abbrev pub minimum : V → List V → V
  minimum x [] = x
  minimum x (y ∷ ys) = minimum (min x y) ys

  abbrev pub cap_limit : V → List V → V
  cap_limit base_size [] = base_size
  cap_limit base_size (x ∷ xs) = minimum x xs

  unfoldable pub boosted : LeaderWalletConfig V → V → V
  boosted cfg base_size =
      times base_size (plus (whole 1) (times (ratio 1 4) (max cfg.size_tier_boost (whole 0))))

  unfoldable pub apply_leader_size_boost :
      V
      → Candidate V
      → LeaderWallet V
      → LeaderWalletConfig V
      → LeaderBoostInfo
      → WalletCapsConfig V
      → V
  apply_leader_size_boost base_size c w cfg info caps =
      let limit = cap_limit base_size (filter is_used (cap_values c w caps)) in
      if not cfg.enabled || (not info.applied || le base_size (whole 0))
      then base_size
      else min (boosted cfg base_size) limit
