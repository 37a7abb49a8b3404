-- ===== src/Policy/Constrained/Caps.antt =====
-- The caps of the constrained size.
use trenches.Base.{
  ◌≡◌, refl, List, [], ◌∷◌, true, String, some, filter, map, All, arith, if◌then◌else◌, ◌or_else◌,
}
use trenches.Base.Number.{Number, whole, ◌≼◌, IsNumber, IsOrdered, max-le}
use trenches.Policy.Leader.Boost.{minimum-le}
use trenches.Policy.Constrained.{
  Settings, SizingContext, all_caps, applies, lowest, notional_raw, best_arm, candidates,
}

module _ {V : Type 0} ⦃d : Number V⦄ where
  -- A cap that is finite and not negative applies.
  abbrev IsWithinCaps : V → List (String × V) → Type 0
  IsWithinCaps z [] = Unit
  IsWithinCaps z (c ∷ cs) = (applies c ≡ true → z ≼ c.1) × IsWithinCaps z cs

  abbrev values : List (String × V) → List V
  values = map (λ c. c.1)

  module _ (laws : IsOrdered V) where
    applied-IsNumber :
        (cs : List (String × V)) → All (λ y. whole 0 ≼ y) (values (filter applies cs))
    applied-IsNumber [] = tt
    applied-IsNumber ((reason, value) ∷ cs) = ground (arith, applied-IsNumber cs)

    nonneg-IsNumber : (xs : List V) → All (λ y. whole 0 ≼ y) xs → All IsNumber xs
    nonneg-IsNumber [] h = tt
    nonneg-IsNumber (x ∷ xs) h = ((laws.numbers_of_le _ _ h.0).1, nonneg-IsNumber xs h.1)

    lowest-le :
        (fallback : V) (cs : List (String × V))
        → All (λ y. whole 0 ≼ y) (values cs)
        → All (λ y. d.max (whole 0) (lowest fallback cs) ≼ y) (values cs)
    lowest-le fallback [] h = tt
    lowest-le fallback (c ∷ cs) h =
        let (first, rest) =
          minimum-le laws c.1 (values cs) (laws.numbers_of_le _ _ h.0).1
            (nonneg-IsNumber (values cs) h.1) in
        (max-le laws _ _ _ h.0 first, max_lowest (values cs) h.1 rest)
      where
        max_lowest :
            (xs : List V)
            → All (λ y. whole 0 ≼ y) xs
            → All (λ y. lowest fallback (c ∷ cs) ≼ y) xs
            → All (λ y. d.max (whole 0) (lowest fallback (c ∷ cs)) ≼ y) xs
        max_lowest [] a b = tt
        max_lowest (x ∷ xs) a b = (max-le laws _ _ _ a.0 b.0, max_lowest xs a.1 b.1)

    IsWithinCaps-filter :
        (z : V) (cs : List (String × V))
        → All (λ y. z ≼ y) (values (filter applies cs))
        → IsWithinCaps z cs
    IsWithinCaps-filter z [] h = tt
    IsWithinCaps-filter z ((reason, value) ∷ cs) h = ground (arith, IsWithinCaps-filter z cs)

    -- A cap that is finite and not negative is not exceeded.
    abbrev pub IsCapped : V → V → Type 0
    IsCapped z cap = d.is_finite cap ≡ true → whole 0 ≼ cap → z ≼ cap

    capped :
        (z cap : V) (c : String × V) → c.1 ≡ cap → (applies c ≡ true → z ≼ c.1) → IsCapped z cap
    capped z cap c e h finite nonneg = ground (arith, e, finite, nonneg, h)

    -- The fraction of the equity that is allowed for one name: that of the context if it is finite, or
    -- else the configured one, or else all.
    abbrev pub name_fraction : Settings V → SizingContext V → V
    name_fraction cfg ctx =
        if d.is_finite ctx.per_name_fraction
        then ctx.per_name_fraction
        else cfg.per_name_cap_fraction or_else whole 1

    abbrev pub name_limit : Settings V → SizingContext V → V
    name_limit cfg ctx =
        if d.is_finite ctx.per_name_max_sol
        then ctx.per_name_max_sol
        else cfg.per_name_cap_max_sol or_else d.infinity

    -- Before it is rounded the size is within each of these bounds that is finite and not negative:
    -- the free equity if that is not negative, what is left of the day's spend, the limit and the
    -- fraction of the equity for one name, the cap in dollars at a price in the database, and the
    -- size of the best arm.
    pub notional_raw-IsWithinCaps :
        (cfg : Settings V) (ctx : SizingContext V)
        → let z = notional_raw cfg ctx in
          IsCapped z (best_arm (candidates cfg ctx)).1
          × IsCapped z (d.max (whole 0) ctx.wallet_free)
          × IsCapped z (name_limit cfg ctx)
          × (d.is_finite (name_fraction cfg ctx) ≡ true
              → IsCapped z (d.times ctx.wallet_equity (name_fraction cfg ctx)))
          × (d.is_finite ctx.daily_spend_cap_sol ≡ true
              → IsCapped z (d.max (whole 0) (d.minus ctx.daily_spend_cap_sol ctx.daily_spend_used)))
          × ((usd price : V)
              → cfg.per_mint_cap_usd ≡ some usd
              → cfg.price_from_db ≡ some price
              → d.lt (whole 0) usd ≡ true
              → d.lt (whole 0) price ≡ true
              → IsCapped z (d.over usd price))
    unfolding notional_raw all_caps
    notional_raw-IsWithinCaps cfg ctx =
        let h : IsWithinCaps (notional_raw cfg ctx) (all_caps cfg ctx) =
          IsWithinCaps-filter (notional_raw cfg ctx) (all_caps cfg ctx) (
            lowest-le _ (filter applies (all_caps cfg ctx))
              (applied-IsNumber (all_caps cfg ctx))) in
        let (arm, (free, (most, (share, (daily, (dollars, rest)))))) = h in
        (
          capped _ _ ("arm_cap", _) refl arm,
          capped _ _ ("wallet_free", _) refl free,
          capped _ _ ("per_name_max", _) refl most,
          (λ h. capped _ _ ("per_name_fraction", _) (ground (arith, h)) share),
          (λ h. capped _ _ ("daily_cap", _) (ground (arith, h)) daily),
          (λ usd price u p hu hp. capped _ _ ("usd_cap", _) (ground (arith, u, p, hu, hp)) dollars),
        )
