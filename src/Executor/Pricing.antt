-- ===== src/Executor/Pricing.antt =====
-- services/executor/src/migrationPreset.ts and `computePriorityFeeMicroLamports` of
-- services/executor/src/index.ts. The latest migration event of the mint is an argument.
use trenches.Base.{
  ℕ, arith, ◌-◌, ◌+◌, Option, none, some, Bool, false, not, ◌&&◌, ◌||◌, ◌or_else◌, String, leb, ltb,
  if◌then◌else◌, ◌≡◌, refl, [], ◌∷◌,
}
use trenches.Base.Dict
use trenches.Base.Dict.{Dict}
use trenches.Base.Number.{Number, whole, ◌≼◌, IsNumber, IsOrdered, max-IsNumber, max-le, le-min}
use trenches.Util.Math.{clamp01}

pub record MigrationPresetConfig (V : Type 0) : Type 0 where
  pub enabled : Bool
  pub duration_ms : ℕ
  pub cu_price_bump : V
  pub min_slippage_bps : V
  pub decay_ms : ℕ

pub record MigrationPresetResult (V : Type 0) : Type 0 where
  pub cu_price : V
  pub slippage_bps : V
  pub applied : Bool
  pub migration_ts : Option ℕ
  pub age_ms : Option ℕ
  pub decay_progress : Option V

pub record PriorityFeeConfig (V : Type 0) : Type 0 where
  pub base_micro_lamports : Option V
  pub floor_micro_lamports : Option V
  pub max_micro_lamports : Option V
  pub size_multiplier_micro_lamports : Option V
  pub congestion_multipliers : Option (Dict V)

module _ {V : Type 0} ⦃d : Number V⦄ where
  open d use {ratio, plus, minus, times, over, le, lt, eq, min, max, round, is_finite}

  -- How far the decay has come at an age, and the slippage that it blends.
  abbrev pub progress : MigrationPresetConfig V → ℕ → V
  progress preset age = clamp01 (over (whole (age - preset.duration_ms)) (whole preset.decay_ms))

  abbrev pub blended_slip : MigrationPresetConfig V → V → ℕ → V
  blended_slip preset base_slip age =
      let p = progress preset age in
      round (plus (times preset.min_slippage_bps (minus (whole 1) p)) (times base_slip p))

  unfoldable pub apply_migration_preset_adjustment :
      MigrationPresetConfig V → ℕ → V → V → Option ℕ → MigrationPresetResult V
  apply_migration_preset_adjustment preset now base_cu base_slip none = record {
    cu_price = base_cu;
    slippage_bps = base_slip;
    applied = false;
    migration_ts = none;
    age_ms = none;
    decay_progress = none;
  }
  apply_migration_preset_adjustment preset now base_cu base_slip (some ts) =
      let age = now - ts in
      let p = progress preset age in
      let bump = round (times preset.cu_price_bump (minus (whole 1) p)) in
      let fresh_cu = plus base_cu preset.cu_price_bump in
      let fresh_slip = max base_slip preset.min_slippage_bps in
      let decayed_slip = max base_slip (blended_slip preset base_slip age) in
      if not preset.enabled
      then record {
        cu_price = base_cu;
        slippage_bps = base_slip;
        applied = false;
        migration_ts = none;
        age_ms = none;
        decay_progress = none;
      }
      else if leb age preset.duration_ms
      then record {
        cu_price = fresh_cu;
        slippage_bps = fresh_slip;
        applied = not (eq fresh_cu base_cu) || not (eq fresh_slip base_slip);
        migration_ts = some ts;
        age_ms = some age;
        decay_progress = some (whole 0);
      }
      else if ltb 0 preset.decay_ms && leb age (preset.duration_ms + preset.decay_ms)
      then record {
        cu_price = plus base_cu bump;
        slippage_bps = decayed_slip;
        applied = lt (whole 0) bump || lt base_slip decayed_slip;
        migration_ts = some ts;
        age_ms = some age;
        decay_progress = some p;
      }
      else record {
        cu_price = base_cu;
        slippage_bps = base_slip;
        applied = false;
        migration_ts = some ts;
        age_ms = some age;
        decay_progress = some (whole 1);
      }

  abbrev default_multipliers : Dict V
  default_multipliers =
      ("p25", ratio 6 10) ∷ ("p50", whole 1) ∷ ("p75", ratio 15 10) ∷ ("p90", whole 2) ∷ []

  -- The multiplier of the level, or 1 where none is given that is finite and positive.
  abbrev multiplier : Option V → V
  multiplier none = whole 1
  multiplier (some x) = if is_finite x && lt (whole 0) x then x else whole 1

  abbrev pub floor_fee : PriorityFeeConfig V → V
  floor_fee priority = priority.floor_micro_lamports or_else whole 4000

  abbrev pub raw_fee : PriorityFeeConfig V → Option String → Option V → V
  raw_fee priority level size_sol =
      let base = priority.base_micro_lamports or_else whole 6000 in
      let size_multiplier = priority.size_multiplier_micro_lamports or_else whole 1200 in
      let multipliers = priority.congestion_multipliers or_else default_multipliers in
      let size = times (max (whole 0) (size_sol or_else whole 0)) (max (whole 0) size_multiplier) in
      times (plus (max (whole 0) base) size) (multiplier (Dict.get (level or_else "") multipliers))

  unfoldable pub compute_priority_fee_micro_lamports :
      PriorityFeeConfig V → Option String → Option V → V
  compute_priority_fee_micro_lamports priority level size_sol =
      let floor = floor_fee priority in
      let ceiling = max floor (priority.max_micro_lamports or_else whole 25000) in
      let bounded = min (max floor (round (raw_fee priority level size_sol))) ceiling in
      max (whole 0) bounded

module _ {V : Type 0} ⦃d : Number V⦄ (laws : IsOrdered V) where
  -- The preset never lowers the slippage of the plan, whatever the age of the migration, provided
  -- the slippages that it compares are numbers; disabled or without a migration it changes nothing.
  pub migration-IsRaise :
      (preset : MigrationPresetConfig V) (now : ℕ) (base_cu base_slip : V) (latest : Option ℕ)
      → IsNumber base_slip
      → IsNumber preset.min_slippage_bps
      → ((age : ℕ) → IsNumber (blended_slip preset base_slip age))
      → let result = apply_migration_preset_adjustment preset now base_cu base_slip latest in
        (base_slip ≼ result.slippage_bps)
        × (preset.enabled ≡ false → (result.cu_price ≡ base_cu) × (result.slippage_bps ≡ base_slip))
  unfolding apply_migration_preset_adjustment
  migration-IsRaise preset now base_cu base_slip none hb hm hs = (hb, λ e. (refl, refl))
  migration-IsRaise preset now base_cu base_slip (some ts) hb hm hs =
      let fresh = laws.le-max base_slip preset.min_slippage_bps hb hm in
      let decayed = laws.le-max base_slip _ hb (hs (now - ts)) in ground (arith, fresh, decayed)

  -- The priority fee is at least 0 and at least the floor, and at most the largest of 0, the floor
  -- and the maximum, for every congestion level and size, provided the configured numbers and the
  -- rounded fee are not NaN.
  pub priority_fee-IsWithin :
      (priority : PriorityFeeConfig V) (level : Option String) (size_sol : Option V) (top : V)
      → let fee = compute_priority_fee_micro_lamports priority level size_sol in
        IsNumber (d.round (raw_fee priority level size_sol))
        → IsNumber (floor_fee priority)
        → whole 0 ≼ top
        → floor_fee priority ≼ top
        → (priority.max_micro_lamports or_else whole 25000) ≼ top
        → (whole 0 ≼ fee) × (floor_fee priority ≼ fee) × (fee ≼ top)
  unfolding compute_priority_fee_micro_lamports
  priority_fee-IsWithin priority level size_sol top hr hf h0 h1 h2 =
      let f = floor_fee priority in
      let m = priority.max_micro_lamports or_else whole 25000 in
      let (nm, nt) = laws.numbers_of_le m top h2 in
      let (n0, _) = laws.numbers_of_le _ _ h0 in
      let lower = laws.le-max f _ hf hr in
      let upper = laws.le-max f m hf nm in
      let above = le-min laws f _ _ lower.0 upper.0 in
      let nb = (laws.numbers_of_le _ _ above).1 in
      let cut = laws.min-le _ _ (max-IsNumber laws _ _ hf hr) (max-IsNumber laws _ _ hf nm) in
      let below = laws.le_trans _ _ top cut.1 (max-le laws top _ _ h1 h2) in
      let ends = laws.le-max (whole 0) _ n0 nb in
      (ends.0, laws.le_trans f _ _ above ends.1, max-le laws top _ _ h0 below)
