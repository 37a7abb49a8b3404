-- ===== src/Policy/Leader/Boost.antt =====
-- The boost and its caps.
use trenches.Base.{
  ℕ, zero, suc, ◌≤◌, ◌≡◌, ◌≢◌, List, [], ◌∷◌, Option, none, Bool, true, false, String, ite, length,
  ◌or_else◌, take, filter, All, arith, if_cases, text_discrete,
}
use trenches.Base.Number.{Number, whole, ◌≼◌, IsNumber, IsOrdered}
use trenches.Policy.Sizing.{Candidate}
use trenches.Policy.Leader.{
  LeaderWalletConfig, LeaderBoostInfo, LeaderWallet, WalletCapsConfig, unique,
  compute_leader_boost_info, cap_values, is_used, minimum, cap_limit, boosted,
  apply_leader_size_boost,
}

module _ {V : Type 0} ⦃d : Number V⦄ (laws : IsOrdered V) where
  open laws use {numbers_of_le, numbers_of_lt, le_trans, min-le, ratio_nonneg}

  -- Each element that is used is a number, and the minimum is below it.
  pub minimum-le :
      (x : V) (xs : List V)
      → IsNumber x
      → All IsNumber xs
      → (minimum x xs ≼ x) × All (λ y. minimum x xs ≼ y) xs
  minimum-le x [] hx h = (hx, tt)
  minimum-le x (y ∷ ys) hx h =
      let (a, b) = min-le x y hx h.0 in
      let (m, rest) = minimum-le (d.min x y) ys (numbers_of_le _ _ a).0 h.1 in
      (le_trans _ _ x m a, (le_trans _ _ y m b, rest))

  used-IsNumber : (xs : List V) → All IsNumber (filter is_used xs)
  used-IsNumber [] = tt
  used-IsNumber (x ∷ xs) = ground (arith, used-IsNumber xs, numbers_of_lt (whole 0) x)

  abbrev IsBelowUsed : V → List V → Type 0
  IsBelowUsed z [] = Unit
  IsBelowUsed z (x ∷ xs) = (is_used x ≡ true → z ≼ x) × IsBelowUsed z xs

  filter-IsBelowUsed :
      (z : V) (xs : List V) → All (λ y. z ≼ y) (filter is_used xs) → IsBelowUsed z xs
  filter-IsBelowUsed z [] h = tt
  filter-IsBelowUsed z (x ∷ xs) h = ground (arith, filter-IsBelowUsed z xs)

  pub below-All : (z m : V) (us : List V) → z ≼ m → All (λ y. m ≼ y) us → All (λ y. z ≼ y) us
  below-All z m [] h a = tt
  below-All z m (u ∷ us) h a = (le_trans z m u h a.0, below-All z m us h a.1)

  below_limit :
      (z base_size : V) (us : List V)
      → All IsNumber us
      → z ≼ cap_limit base_size us
      → All (λ y. z ≼ y) us
  below_limit z base_size [] n h = tt
  below_limit z base_size (u ∷ us) n h =
      let (a, b) = minimum-le u us n.0 n.1 in
      (le_trans z (minimum u us) u h a, below-All z (minimum u us) us h b)

  limit-IsNumber :
      (base_size : V) (us : List V)
      → IsNumber base_size
      → All IsNumber us
      → IsNumber (cap_limit base_size us)
  limit-IsNumber base_size [] b n = b
  limit-IsNumber base_size (u ∷ us) b n = (numbers_of_le _ _ (minimum-le u us n.0 n.1).0).0

  -- A cap that is finite and positive is not exceeded.
  abbrev pub IsCapped : V → V → Type 0
  IsCapped z cap = d.is_finite cap ≡ true → d.lt (whole 0) cap ≡ true → z ≼ cap

  capped : (z cap : V) → (is_used cap ≡ true → z ≼ cap) → IsCapped z cap
  capped z cap h finite positive = h (ground (arith, finite, positive))

  each_capped :
      (z c1 c2 c3 c4 c5 : V)
      → IsBelowUsed z (c1 ∷ c2 ∷ c3 ∷ c4 ∷ c5 ∷ [])
      → IsCapped z c1 × IsCapped z c2 × IsCapped z c3 × IsCapped z c4 × IsCapped z c5
  each_capped z c1 c2 c3 c4 c5 (h1, (h2, (h3, (h4, (h5, rest))))) =
      (capped z c1 h1, capped z c2 h2, capped z c3 h3, capped z c4 h4, capped z c5 h5)

  -- The boosted size against the caps as the code lists them.
  boost_below :
      (base_size : V) (c : Candidate V) (w : LeaderWallet V) (cfg : LeaderWalletConfig V)
      (info : LeaderBoostInfo) (caps : WalletCapsConfig V)
      → cfg.enabled ≡ true
      → info.applied ≡ true
      → d.le base_size (whole 0) ≡ false
      → IsNumber base_size
      → IsNumber (boosted cfg base_size)
      → IsBelowUsed (apply_leader_size_boost base_size c w cfg info caps) (cap_values c w caps)
  unfolding apply_leader_size_boost boosted
  boost_below base_size c w cfg info caps on applied pos nb nf =
      let used = filter is_used (cap_values c w caps) in
      let numbers = used-IsNumber (cap_values c w caps) in
      rw (on, applied, pos)
        (filter-IsBelowUsed _ (cap_values c w caps) (
          below_limit _ base_size used numbers
            (min-le _ _ nf (limit-IsNumber base_size used nb numbers)).1))

  -- The share of the equity for one name, and its limit in SOL.
  abbrev pub IsWithinName : V → LeaderWallet V → WalletCapsConfig V → Type 0
  IsWithinName z w caps = IsCapped z (
      d.min (d.times caps.per_name_cap_fraction w.equity)
        (caps.per_name_cap_max_sol or_else d.infinity))

  abbrev liquidity : Candidate V → V
  liquidity c = d.max (c.lp_sol or_else whole 0) (whole 0)

  abbrev pub IsWithinImpact : V → Candidate V → WalletCapsConfig V → Type 0
  IsWithinImpact z c caps = IsCapped z (d.times caps.lp_impact_cap_fraction (liquidity c))

  -- The flow scales the liquidity with the trades, and has a least capacity.
  abbrev pub IsWithinFlow : V → Candidate V → WalletCapsConfig V → Type 0
  IsWithinFlow z c caps =
      let trades =
        d.max (d.plus (c.buys60 or_else whole 0) (c.sells60 or_else whole 0)) (whole 0) in
      let expected = d.max (caps.flow_trades_per_5m or_else whole 60) (whole 1) in
      let share = d.min (whole 1) (d.over trades expected) in
      IsCapped z (
        d.times caps.flow_cap_fraction
          (d.max (d.times (liquidity c) share) (caps.flow_cap_min_sol or_else whole 0)))

  -- A boosted size is within each of these caps that is finite and positive: the free equity, what
  -- is left to spend, the cap of one name, and the caps of the impact and of the flow on the pool.
  pub boost-IsBelowUsed :
      (base_size : V) (c : Candidate V) (w : LeaderWallet V) (cfg : LeaderWalletConfig V)
      (info : LeaderBoostInfo) (caps : WalletCapsConfig V)
      → cfg.enabled ≡ true
      → info.applied ≡ true
      → d.le base_size (whole 0) ≡ false
      → IsNumber base_size
      → IsNumber (boosted cfg base_size)
      → let z = apply_leader_size_boost base_size c w cfg info caps in
        IsCapped z w.free
        × IsCapped z w.spend_remaining
        × IsWithinName z w caps
        × IsWithinImpact z c caps
        × IsWithinFlow z c caps
  unfolding boosted cap_values
  boost-IsBelowUsed base_size c w cfg info caps on applied pos nb nf =
      each_capped (apply_leader_size_boost base_size c w cfg info caps) _ _ _ _ _
        (boost_below base_size c w cfg info caps on applied pos nb nf)

module _ {V : Type 0} ⦃d : Number V⦄ where
  -- Once nothing is left to spend, or the free equity is gone, that cap does not count: the size is
  -- the same whatever it was overdrawn by.
  pub boost_ignores_exhausted :
      (base_size x y : V) (c : Candidate V) (w : LeaderWallet V) (cfg : LeaderWalletConfig V)
      (info : LeaderBoostInfo) (caps : WalletCapsConfig V)
      → is_used w.spend_remaining ≡ false
      → is_used w.free ≡ false
      → is_used x ≡ false
      → is_used y ≡ false
      → apply_leader_size_boost base_size c w cfg info caps
        ≡ apply_leader_size_boost base_size c
            (record w { spend_remaining = x; free = y })
            cfg
            info
            caps
  unfolding apply_leader_size_boost cap_values
  boost_ignores_exhausted base_size x y c w cfg info caps hw hf hx hy = rw (hw, hf, hx, hy)

abbrev pub IsDistinct : List String → Type 0
IsDistinct [] = Unit
IsDistinct (x ∷ xs) = All (λ y. x ≢ y) xs × IsDistinct xs

filter-All :
    (P : String → Type 0) (p : String → Bool) (xs : List String) → All P xs → All P (filter p xs)
filter-All P p [] h = tt
filter-All P p (x ∷ xs) h =
    if_cases (All P) (p x) _ _ (λ e. (h.0, filter-All P p xs h.1)) (λ e. filter-All P p xs h.1)

filter-IsDistinct :
    (p : String → Bool) (xs : List String) → IsDistinct xs → IsDistinct (filter p xs)
filter-IsDistinct p [] h = tt
filter-IsDistinct p (x ∷ xs) h =
    if_cases IsDistinct (p x) _ _ (λ e. (filter-All _ p xs h.0, filter-IsDistinct p xs h.1))
      (λ e. filter-IsDistinct p xs h.1)

filter_other-All :
    (x : String) (xs : List String)
    → All (λ y. x ≢ y) (filter (λ y. ite (text_discrete x y) false true) xs)
filter_other-All x [] = tt
filter_other-All x (y ∷ ys) = ground (arith, filter_other-All x ys)

unique-IsDistinct : (xs : List String) → IsDistinct (unique xs)
unfolding unique
unique-IsDistinct [] = tt
unique-IsDistinct (x ∷ xs) =
    (filter_other-All x (unique xs), filter-IsDistinct _ (unique xs) (unique-IsDistinct xs))

take-All : (P : String → Type 0) (n : ℕ) (xs : List String) → All P xs → All P (take n xs)
take-All P zero xs h = tt
take-All P (suc n) [] h = tt
take-All P (suc n) (x ∷ xs) h = (h.0, take-All P n xs h.1)

take-IsDistinct : (n : ℕ) (xs : List String) → IsDistinct xs → IsDistinct (take n xs)
take-IsDistinct zero xs h = tt
take-IsDistinct (suc n) [] h = tt
take-IsDistinct (suc n) (x ∷ xs) h = (take-All _ n xs h.0, take-IsDistinct n xs h.1)

take-length : (n : ℕ) (xs : List String) → length (take n xs) ≤ n
take-length zero xs = omega arith
take-length (suc n) [] = omega arith
take-length (suc n) (x ∷ xs) = omega (arith, take-length n xs)

-- No leader wallet is listed twice, at most five are listed, and the boost applies only to a
-- configured pool with as many hits as the configuration asks for, counted with repetitions.
pub compute_leader_boost_info-IsSound :
    {V : Type 0} (pool : Option String) (cfg : LeaderWalletConfig V) (hits : List String)
    → let info = compute_leader_boost_info pool cfg hits in
      IsDistinct info.wallets
      × (length info.wallets ≤ 5)
      × (info.applied ≡ true
          → (cfg.enabled ≡ true) × (pool ≢ none) × (cfg.min_hits_for_boost ≤ length hits))
unfolding compute_leader_boost_info
compute_leader_boost_info-IsSound pool cfg hits =
    let distinct = take-IsDistinct 5 (unique hits) (unique-IsDistinct hits) in
    let short = take-length 5 (unique hits) in ground (arith, distinct, short)
