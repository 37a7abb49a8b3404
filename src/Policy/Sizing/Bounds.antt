-- ===== src/Policy/Sizing/Bounds.antt =====
-- A size within all its caps.
use trenches.Base.{
  ◌≡◌, Option, none, some, true, false, arith, if_cases, [], ◌∷◌, ◌++◌, if◌then◌else◌,
}
use trenches.Base.Number.{Number, whole, ◌≼◌, IsNumber, IsOrdered, le-min, max-le}
use trenches.Policy.Sizing.{
  WalletConfig, Candidate, WalletSnapshot, Caps, SizingResult, ok, no_available_size, size_within,
  compute_sizing, risk_fraction, is_boosted, tier_fraction,
}

module _ {V : Type 0} ⦃d : Number V⦄ where
  -- A cap that is a number and is not negative, where there is one.
  abbrev pub IsCap : Option V → Type 0
  IsCap none = Unit
  IsCap (some x) = whole 0 ≼ x

  abbrev pub IsWithin : V → Option V → Type 0
  IsWithin x none = Unit
  IsWithin x (some cap) = x ≼ cap

  pub record HasCaps (c : Caps V) : Type 0 where
    pub risk : whole 0 ≼ c.risk
    pub per_name : IsCap c.per_name
    pub lp_impact : IsCap c.lp_impact
    pub flow : IsCap c.flow
    pub daily : IsCap c.daily
    pub multiplier : IsCap c.multiplier

  pub record Respects (size : V) (c : Caps V) : Type 0 where
    pub risk : size ≼ c.risk
    pub per_name : IsWithin size c.per_name
    pub lp_impact : IsWithin size c.lp_impact
    pub flow : IsWithin size c.flow
    pub daily : IsWithin size c.daily
    pub multiplier : IsWithin size c.multiplier

  module _ (laws : IsOrdered V) where
    open laws use {numbers_of_le, le_trans, min-le, max_or, ratio_nonneg, le-max}

    zero_nonneg : whole {V = V} 0 ≼ whole 0
    zero_nonneg = ratio_nonneg 0 1 (omega arith)

    -- The smaller of two caps is a cap, and is within both.
    min_cap :
        (x y : V)
        → whole 0 ≼ x
        → whole 0 ≼ y
        → (whole 0 ≼ d.min x y) × (d.min x y ≼ x) × (d.min x y ≼ y)
    min_cap x y hx hy =
        let (a, b) = min-le x y (numbers_of_le _ _ hx).1 (numbers_of_le _ _ hy).1 in
        (le-min laws (whole 0) x y hx hy, a, b)

    max_zero : (x : V) → whole 0 ≼ x → (whole 0 ≼ d.max x (whole 0)) × (d.max x (whole 0) ≼ x)
    max_zero x h = (
      (le-max x (whole 0) (numbers_of_le _ _ h).1 zero_nonneg).1,
      max-le laws x x (whole 0) (numbers_of_le _ _ h).1 h,
    )

    lowest_of_four :
        (a b c e : V)
        → whole 0 ≼ a
        → whole 0 ≼ b
        → whole 0 ≼ c
        → whole 0 ≼ e
        → let m = d.min (d.min (d.min a b) c) e in
          (whole 0 ≼ m) × (m ≼ a) × (m ≼ b) × (m ≼ c) × (m ≼ e)
    lowest_of_four a b c e ha hb hc he =
        let (h1, a1, b1) = min_cap a b ha hb in
        let (h2, m2, c2) = min_cap (d.min a b) c h1 hc in
        let (h3, m3, e3) = min_cap (d.min (d.min a b) c) e h2 he in
        let down = le_trans _ _ (d.min a b) m3 m2 in
        (h3, le_trans _ _ a down a1, le_trans _ _ b down b1, le_trans _ _ c m3 c2, e3)

    size_within-Respects :
        (w : WalletConfig V) (c : Candidate V) (s : WalletSnapshot V) (multiplier fraction : V)
        → whole 0 ≼ s.free
        → let r = size_within w c s multiplier fraction in
          HasCaps r.caps
          → (whole 0 ≼ r.size) × (r.size ≼ r.base) × (r.size ≼ s.free) × Respects r.size r.caps
    unfolding size_within
    size_within-Respects w c s multiplier fraction hf h =
        let r = size_within w c s multiplier fraction in
        let (l4, l_risk, l_name, l_impact, l_flow) =
          lowest_of_four r.caps.risk _ _ _ h.risk h.per_name h.lp_impact h.flow in
        let (b0, b_four, b_daily) = min_cap _ _ l4 h.daily in
        let (base0, base_le) = max_zero _ b0 in
        let (s0, s_adjusted, s_base, s_free, s_daily) =
          lowest_of_four _ r.base s.free _ h.multiplier base0 hf h.daily in
        let (size0, size_le) = max_zero _ s0 in
        let within_base = le_trans _ _ r.base size_le s_base in
        let four = le_trans _ _ _ within_base (le_trans _ _ _ base_le b_four) in
        (
          size0,
          within_base,
          le_trans _ _ s.free size_le s_free,
          record {
            risk = le_trans _ _ _ four l_risk;
            per_name = le_trans _ _ _ four l_name;
            lp_impact = le_trans _ _ _ four l_impact;
            flow = le_trans _ _ _ four l_flow;
            daily = le_trans _ _ _ size_le s_daily;
            multiplier = le_trans _ _ _ size_le s_adjusted;
          },
        )

    ok-positive :
        (size : V)
        → whole 0 ≼ size
        → (if d.le size (whole 0) then no_available_size else ok) ≡ ok
        → d.lt (whole 0) size ≡ true
    ok-positive size h e =
        ground (arith, laws.lt-eq-not-le (whole 0) size zero_nonneg (numbers_of_le _ _ h).1)

    abbrev IsSafe : WalletConfig V → WalletSnapshot V → SizingResult V → Type 0
    IsSafe w s r =
        HasCaps r.caps
        → (whole 0 ≼ r.size)
          × (r.size ≼ s.free)
          × Respects r.size r.caps
          × (r.reason ≡ ok
              → (d.lt (whole 0) r.size ≡ true) × (d.le w.concurrency_cap s.open_positions ≡ false))

    size_within-IsSafe :
        (w : WalletConfig V) (c : Candidate V) (s : WalletSnapshot V) (multiplier fraction : V)
        → whole 0 ≼ s.free
        → d.le w.concurrency_cap s.open_positions ≡ false
        → IsSafe w s (size_within w c s multiplier fraction)
    unfolding size_within
    size_within-IsSafe w c s multiplier fraction hf room h =
        let (pos, base, free, caps) = size_within-Respects w c s multiplier fraction hf h in
        (pos, free, caps, λ e. (ok-positive _ pos e, room))

    -- If the free equity is not negative, and neither is any cap that the result reports, then the
    -- size is not negative and is within the free equity and each of the caps. It is reported as
    -- `ok` only if it is positive and there is room for another position.
    pub compute_sizing-Respects :
        (w : WalletConfig V) (c : Candidate V) (s : WalletSnapshot V) (multiplier : V)
        → whole 0 ≼ s.free
        → HasCaps (compute_sizing w c s multiplier).caps
        → let r = compute_sizing w c s multiplier in
          (whole 0 ≼ r.size)
          × (r.size ≼ s.free)
          × Respects r.size r.caps
          × (r.reason ≡ ok
              → (d.lt (whole 0) r.size ≡ true) × (d.le w.concurrency_cap s.open_positions ≡ false))
    unfolding compute_sizing
    compute_sizing-Respects w c s multiplier hf =
        if_cases (IsSafe w s) (d.le w.concurrency_cap s.open_positions) _ _
          (λ full h. (
            zero_nonneg,
            hf,
            record {
              risk = h.risk;
              per_name = tt;
              lp_impact = tt;
              flow = tt;
              daily = tt;
              multiplier = tt;
            },
            λ e. cc,
          ))
          (λ room. size_within-IsSafe w c s multiplier (risk_fraction w c s.equity) hf room)

    -- The fraction of a token that is boosted is at most 0.4, whatever its tier allows.
    pub risk_fraction_boosted :
        (w : WalletConfig V) (c : Candidate V) (equity : V)
        → is_boosted c ≡ true
        → IsNumber (
            d.times
              (tier_fraction equity w.last_tier.risk_fraction (w.tiers ++ (w.last_tier ∷ [])))
              (whole 2))
        → risk_fraction w c equity ≼ d.ratio 4 10
    unfolding risk_fraction
    risk_fraction_boosted w c equity b h =
        rw b (min-le _ _ h (numbers_of_le _ _ (ratio_nonneg 4 10 (omega arith))).1).1
