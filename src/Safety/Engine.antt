-- ===== src/Safety/Engine.antt =====
-- services/safety-engine/src/index.ts (`evaluateCandidate`, `evaluateGating`). Each read of the chain
-- gives one answer during an evaluation, and the evaluation is one step, from the read of the cache to
-- the write; the program awaits the RPC in between. The pump probability and the metrics, which no result
-- depends on, are left out.
pub mod Verdicts
pub mod Cached
use trenches.Base.{
  ℕ, List, [], ◌∷◌, ◌++◌, Option, none, some, Bool, true, false, not, ◌&&◌, ◌||◌, String, ◌>>=◌,
  if◌then◌else◌,
}
use trenches.Base.Sets.{mem, insert, insert_all}
use trenches.Base.Number.{Number, whole}
use trenches.Util.TtlCache
use trenches.Util.TtlCache.{TtlCache}
use trenches.Safety.Reasons.{reason_if, is_empty, unless_ok}
use trenches.Safety.Chain.{Chain}
use trenches.Safety.Token.{TokenSafetyResult, check_token_safety}
use trenches.Safety.Lp.{LpSafetyResult, check_lp_safety}
use trenches.Safety.Holder.{HolderSafetyResult, check_holder_skew}
use trenches.Safety.Rugguard.{TokenCandidate, RugGuardVerdict, candidate_to_features, classify}

pub record SafetyEvaluation (V : Type 0) : Type 0 where
  pub ok : Bool
  pub reasons : List String
  pub whale_flag : Bool
  pub rug_prob : V

pub record MinimumChecks (V : Type 0) : Type 0 where
  pub lp_min_sol : V
  pub uniques_min : V
  pub lp_burn_threshold : V
  pub holder_top_cap : V
  pub max_rug_prob : V

pub record Gating (V : Type 0) : Type 0 where
  pub lp_min_sol : V
  pub buys_sell_ratio_min : V
  pub uniques_min : V
  pub min_pool_age_sec : V
  pub max_spread_bps : V

pub record SafetyConfig (V : Type 0) : Type 0 where
  pub sss_threshold : V
  pub velocity_threshold : V
  pub minimum_checks : MinimumChecks V
  pub gating : Gating V
  pub locker_programs : List String
  pub ignore_accounts : List String
  pub lp_burn_threshold : V
  pub holder_top_cap : V
  pub rug_guard : Bool

-- What an evaluation takes from its surroundings: the chain, the configuration, the weights of the
-- model, and whether `insertRugVerdict` succeeds.
pub record Setting (V : Type 0) : Type 0 where
  pub chain : Chain V
  pub config : SafetyConfig V
  pub model : Option (List V)
  pub insert_rug_verdict : RugGuardVerdict V → Bool

module _ {V : Type 0} ⦃d : Number V⦄ where
  open d use {ratio, over, lt, eq}

  -- `x?.y > threshold`, which is false of a value that is missing.
  abbrev exceeds : Option V → V → Bool
  exceeds none threshold = false
  exceeds (some x) threshold = lt threshold x

  unfoldable pub is_fast_entry : SafetyConfig V → TokenCandidate V → Bool
  is_fast_entry config candidate =
      exceeds candidate.social_sss config.sss_threshold
      || exceeds candidate.social_velocity config.velocity_threshold

  abbrev pub flow_ratio : TokenCandidate V → V
  flow_ratio c = if eq c.sells60 (whole 0) then c.buys60 else over c.buys60 c.sells60

  unfoldable pub evaluate_gating : TokenCandidate V → SafetyConfig V → List String
  evaluate_gating c config =
      reason_if (lt c.lp_sol config.gating.lp_min_sol) "lp_insufficient"
      ++ reason_if (lt (flow_ratio c) config.gating.buys_sell_ratio_min) "flow_ratio_low"
      ++ reason_if (lt c.uniques60 config.gating.uniques_min) "uniques_low"
      ++ reason_if (lt c.age_sec config.gating.min_pool_age_sec) "age_too_low"
      ++ reason_if (lt config.gating.max_spread_bps c.spread_bps) "spread_too_high"

  abbrev pub pools : TokenCandidate V → List (Option String)
  pools c = c.pool_coin_account ∷ c.pool_pc_account ∷ c.pool_address ∷ []

  abbrev pub verdict_of : Setting V → ℕ → TokenCandidate V → RugGuardVerdict V
  verdict_of s now c = classify s.chain s.model now c.mint (candidate_to_features c)

  -- The rug check of the fast path: the probability and the reasons after it. The write of the
  -- verdict comes first, and what follows is skipped when it throws.
  unfoldable pub fast_rug : Setting V → ℕ → TokenCandidate V → List String → V × List String
  fast_rug s now c reasons =
      let verdict = verdict_of s now c in
      let high =
        reasons
        ++ reason_if (lt s.config.minimum_checks.max_rug_prob verdict.rug_prob)
            "rug_probability_high" in
      if not s.config.rug_guard
      then (ratio 1 2, reasons)
      else if s.insert_rug_verdict verdict
      then (verdict.rug_prob, insert_all verdict.reasons high)
      else (verdict.rug_prob, reasons)

  abbrev pub fast_reasons :
      Setting V
      → TokenCandidate V
      → TokenSafetyResult
      → LpSafetyResult V
      → HolderSafetyResult V
      → List String
  fast_reasons s c token lp holder =
      let checks = s.config.minimum_checks in
      let poor = reason_if (lt c.lp_sol checks.lp_min_sol) "lp_insufficient" in
      let with_token = insert_all (unless_ok token.ok token.reasons) poor in
      with_token
      ++ reason_if (lt c.uniques60 checks.uniques_min) "uniques_low"
      ++ unless_ok lp.ok lp.reasons
      ++ unless_ok holder.ok holder.reasons

  abbrev pub fast_result : HolderSafetyResult V → V × List String → SafetyEvaluation V
  fast_result holder (rug_prob, reasons) = record {
    ok = is_empty reasons;
    reasons = if is_empty reasons then "fast_entry_mode" ∷ [] else reasons;
    whale_flag = holder.whale_flag;
    rug_prob = rug_prob;
  }

  unfoldable pub evaluate_fast : Setting V → ℕ → TokenCandidate V → Option (SafetyEvaluation V)
  evaluate_fast s now c = do
    token ← check_token_safety s.chain c.mint
    lp ←
        check_lp_safety s.chain c.lp_mint s.config.locker_programs
          s.config.minimum_checks.lp_burn_threshold
    holder ←
        check_holder_skew s.chain c.mint s.config.ignore_accounts (pools c)
          s.config.minimum_checks.holder_top_cap
    some (fast_result holder (fast_rug s now c (fast_reasons s c token lp holder)))

  -- The rug check of the full path, which only reads the verdict's reasons.
  unfoldable pub full_rug : Setting V → ℕ → TokenCandidate V → List String → V × List String
  full_rug s now c reasons =
      let verdict = verdict_of s now c in
      if not s.config.rug_guard
      then (ratio 1 2, reasons)
      else if s.insert_rug_verdict verdict
      then (
        verdict.rug_prob,
        reasons ++ reason_if (mem "mint_or_freeze_active" verdict.reasons) "mint_or_freeze_active",
      )
      else (verdict.rug_prob, reasons)

  abbrev pub full_reasons :
      Setting V
      → TokenCandidate V
      → TokenSafetyResult
      → LpSafetyResult V
      → HolderSafetyResult V
      → List String
  full_reasons s c token lp holder =
      unless_ok token.ok token.reasons
      ++ unless_ok lp.ok lp.reasons
      ++ unless_ok holder.ok holder.reasons
      ++ evaluate_gating c s.config

  abbrev pub full_result : HolderSafetyResult V → V × List String → SafetyEvaluation V
  full_result holder (rug_prob, reasons) = record {
    ok = is_empty reasons;
    reasons = reasons;
    whale_flag = holder.whale_flag;
    rug_prob = rug_prob;
  }

  unfoldable pub evaluate_full : Setting V → ℕ → TokenCandidate V → Option (SafetyEvaluation V)
  evaluate_full s now c = do
    token ← check_token_safety s.chain c.mint
    lp ← check_lp_safety s.chain c.lp_mint s.config.locker_programs s.config.lp_burn_threshold
    holder ←
        check_holder_skew s.chain c.mint s.config.ignore_accounts (pools c) s.config.holder_top_cap
    some (full_result holder (full_rug s now c (full_reasons s c token lp holder)))

  -- The cache is read now and, after an evaluation that did not throw, written later.
  unfoldable pub evaluate_candidate :
      Setting V
      → ℕ
      → ℕ
      → TokenCandidate V
      → TtlCache (SafetyEvaluation V)
      → Option (SafetyEvaluation V) × TtlCache (SafetyEvaluation V)
  evaluate_candidate s now later c cache =
      let (cached, cache') = TtlCache.get c.mint now cache in
      let fresh =
        if is_fast_entry s.config c then evaluate_fast s now c else evaluate_full s now c in
      elim cached [
        | some evaluation ↦ (some evaluation, cache')
        | none ↦ elim fresh [
          | none ↦ (none, cache')
          | some evaluation ↦ (some evaluation, TtlCache.set c.mint evaluation later cache')
        ]
      ]
