-- ===== src/Policy/Constrained.antt =====
-- services/policy-engine/src/sizing_constrained.ts (`chooseSize`). The configuration, the price of
-- the database, the printing of arms and `Number(x.toFixed(4))` are arguments; the record that is
-- written with its propensities, and the counters, are left out.
pub mod Caps
mod Examples
use trenches.Base.{
  List, [], ◌∷◌, Option, none, some, Bool, true, false, not, ◌&&◌, ◌||◌, ◌or_else◌, String, ite,
  text_discrete, filter, map, if◌then◌else◌,
}
use trenches.Base.Number.{Number, whole}
use trenches.Policy.Leader.{minimum}

pub record SizingContext (V : Type 0) : Type 0 where
  pub wallet_equity : V
  pub wallet_free : V
  pub daily_spend_used : V
  pub per_name_fraction : V
  pub per_name_max_sol : V
  pub daily_spend_cap_sol : V
  pub rug_prob : Option V
  pub p_fill : Option V
  pub exp_slip_bps : Option V

pub record Settings (V : Type 0) : Type 0 where
  -- The label and the fraction of the equity of each arm.
  pub arms : List (String × V)
  pub per_name_cap_fraction : Option V
  pub per_name_cap_max_sol : Option V
  pub per_mint_cap_usd : Option V
  pub risk_scaling : Bool
  pub price_from_db : Option V
  pub price_hint : Option V
  pub to_fixed : V → V

pub record SizeDecision (V : Type 0) : Type 0 where
  pub arm : String
  pub notional : V
  pub risk_note : String

abbrev is : String → String → Bool
is s t = ite (text_discrete s t) true false

module _ {V : Type 0} ⦃d : Number V⦄ where
  open d use {ratio, infinity, minus, times, over, le, lt, min, max, is_finite}

  -- The arm with the largest notional, of equals the first.
  abbrev best_of : String × V → List (String × V) → String × V
  best_of best [] = best
  best_of best (c ∷ cs) = best_of (if le c.1 best.1 then best else c) cs

  abbrev pub best_arm : List (String × V) → String × V
  best_arm [] = ("unknown", whole 0)
  best_arm (c ∷ cs) = best_of c (c ∷ cs)

  unfoldable pub candidates : Settings V → SizingContext V → List (String × V)
  candidates cfg ctx =
      let free = max (whole 0) ctx.wallet_free in
      map (λ (a : String × V). (a.0, min free (max (whole 0) (times ctx.wallet_equity a.1))))
        cfg.arms

  abbrev positive : Option V → Option V
  positive none = none
  positive (some x) = if lt (whole 0) x then some x else none

  abbrev finite : Option V → Option V
  finite none = none
  finite (some x) = if is_finite x then some x else none

  abbrev first_of : Option V → Option V → Option V
  first_of none y = y
  first_of (some x) y = some x

  abbrev sol_price : Settings V → Option V
  sol_price cfg = first_of (positive cfg.price_from_db) (positive (finite cfg.price_hint))

  -- The cap in SOL, where the cap in dollars and the price are known and positive.
  abbrev usd_cap : Settings V → Option V
  usd_cap cfg = elim (positive cfg.per_mint_cap_usd) [
    | none ↦ none
    | some usd ↦ elim (sol_price cfg) [ none ↦ none | some price ↦ some (over usd price) ]
  ]

  abbrev finite_or : V → V → V
  finite_or x other = if is_finite x then x else other

  -- The caps with their reasons, before those that do not apply are taken out.
  unfoldable pub all_caps : Settings V → SizingContext V → List (String × V)
  unfolding candidates
  all_caps cfg ctx =
      let fraction = finite_or ctx.per_name_fraction (cfg.per_name_cap_fraction or_else whole 1) in
      let name_cap = if is_finite fraction then times ctx.wallet_equity fraction else infinity in
      let total = ctx.daily_spend_cap_sol in
      let daily =
        if is_finite total then max (whole 0) (minus total ctx.daily_spend_used) else infinity in
      ("arm_cap", (best_arm (candidates cfg ctx)).1)
      ∷ ("wallet_free", max (whole 0) ctx.wallet_free)
      ∷ ("per_name_max", finite_or ctx.per_name_max_sol (cfg.per_name_cap_max_sol or_else infinity))
      ∷ ("per_name_fraction", name_cap)
      ∷ ("daily_cap", daily)
      ∷ ("usd_cap", usd_cap cfg or_else infinity)
      ∷ []

  abbrev pub applies : String × V → Bool
  applies (reason, value) = is_finite value && le (whole 0) value

  abbrev pub lowest : V → List (String × V) → V
  lowest fallback [] = fallback
  lowest fallback (c ∷ cs) = minimum c.1 (map (λ x. x.1) cs)

  unfoldable pub notional_raw : Settings V → SizingContext V → V
  notional_raw cfg ctx =
      let fallback = max (whole 0) (best_arm (candidates cfg ctx)).1 in
      max (whole 0) (lowest fallback (filter applies (all_caps cfg ctx)))

  abbrev limit_from : String × V → List (String × V) → String × V
  limit_from acc [] = acc
  limit_from acc (item ∷ items) = limit_from (if lt item.1 acc.1 then item else acc) items

  abbrev limiting_reason : List (String × V) → String
  limiting_reason [] = "arm_cap"
  limiting_reason (c ∷ cs) = (limit_from c (c ∷ cs)).0

  abbrev clamp : V → V → V → V
  clamp value low high = max low (min high value)

  abbrev scale_by : Option V → (V → V) → V
  scale_by none f = whole 1
  scale_by (some x) f = if is_finite x then f x else whole 1

  abbrev pub unit : V → V
  unit value = min (whole 1) (max (whole 0) value)

  unfoldable pub risk_multiplier : Settings V → SizingContext V → V
  risk_multiplier cfg ctx =
      let rug =
        scale_by ctx.rug_prob
          (λ x. clamp (minus (whole 1) (times (ratio 8 10) (unit x))) (ratio 2 10) (whole 1)) in
      let fill =
        scale_by ctx.p_fill (λ x. clamp (over (unit x) (ratio 9 10)) (ratio 25 100) (whole 1)) in
      let slip = scale_by ctx.exp_slip_bps (λ x.
        let s = clamp x (whole 1) (whole 5000) in
        if not (lt (whole 0) x) || le s (whole 150)
        then whole 1
        else clamp (over (whole 150) s) (ratio 2 10) (whole 1)) in
      let product = times (times (times (whole 1) rug) fill) slip in
      clamp (if cfg.risk_scaling then product else whole 1) (whole 0) (whole 1)

  abbrev first_note : Settings V → String → V → String
  first_note cfg reason notional =
      if is reason "arm_cap"
      then (if le notional (whole 0)
          then "no_available_size"
          else elim (positive cfg.per_mint_cap_usd) [
            | none ↦ "ok"
            | some usd ↦ elim (sol_price cfg) [ none ↦ "usd_cap_suspended" | some price ↦ "ok" ]
          ])
      else reason

  abbrev scaled_note : String → V → String
  scaled_note note notional =
      if le notional (whole 0)
      then "risk_scaled_zero"
      else if is note "ok" || is note "usd_cap_suspended"
      then "risk_scaled"
      else note

  unfoldable pub choose_size : Settings V → SizingContext V → SizeDecision V
  choose_size cfg ctx =
      let arm = (best_arm (candidates cfg ctx)).0 in
      let notional = cfg.to_fixed (notional_raw cfg ctx) in
      let reason = limiting_reason (filter applies (all_caps cfg ctx)) in
      let note = first_note cfg reason notional in
      let m = risk_multiplier cfg ctx in
      let adjusted = cfg.to_fixed (max (whole 0) (times notional m)) in
      if cfg.risk_scaling && lt m (ratio 999 1000)
      then record { arm = arm; notional = adjusted; risk_note = scaled_note note adjusted }
      else record { arm = arm; notional = notional; risk_note = note }
