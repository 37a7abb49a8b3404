-- ===== src/Safety/Engine/Verdicts.antt =====
-- What an evaluation accepts.
use trenches.Base.{ℕ, ◌≡◌, refl, List, ◌++◌, some, Bool, false, not, ◌&&◌, ◌||◌, String, arith}
use trenches.Base.Sets.{mem}
use trenches.Base.Number.{Number}
use trenches.Safety.Reasons.{
  reason_if, is_empty, is_empty-append, is_empty-reason_if, is_empty-unless_ok, is_empty-insert_all,
}
use trenches.Safety.Token.{TokenSafetyResult, check_token_safety, check_token_safety-Reported}
use trenches.Safety.Lp.{LpSafetyResult, check_lp_safety}
use trenches.Safety.Lp.Locked.{check_lp_safety-Reported}
use trenches.Safety.Holder.{HolderSafetyResult, check_holder_skew, check_holder_skew-Reported}
use trenches.Safety.Rugguard.{TokenCandidate, revoked, classify}
use trenches.Safety.Engine.{
  SafetyConfig, SafetyEvaluation, Setting, flow_ratio, evaluate_gating, pools, verdict_of, fast_rug,
  fast_reasons, evaluate_fast, full_rug, full_reasons, fast_result, full_result, evaluate_full,
}

module _ {V : Type 0} ⦃d : Number V⦄ where
  open d use {lt}

  -- No threshold of the gating is missed.
  abbrev pub gates_open : TokenCandidate V → SafetyConfig V → Bool
  gates_open c config =
      not (lt c.lp_sol config.gating.lp_min_sol)
      && not (lt (flow_ratio c) config.gating.buys_sell_ratio_min)
      && not (lt c.uniques60 config.gating.uniques_min)
      && not (lt c.age_sec config.gating.min_pool_age_sec)
      && not (lt config.gating.max_spread_bps c.spread_bps)

  is_empty-gating :
      (c : TokenCandidate V) (config : SafetyConfig V)
      → is_empty (evaluate_gating c config) ≡ gates_open c config
  unfolding evaluate_gating
  is_empty-gating c config = simp (is_empty-append, is_empty-reason_if)

  -- Whether both authorities of the mint are gone.
  abbrev pub is_revoked : Setting V → TokenCandidate V → Bool
  is_revoked s c = revoked (s.chain.get_parsed_account_info c.mint)

  -- The rug check is off, or its verdict could not be stored.
  abbrev pub is_waived : Setting V → ℕ → TokenCandidate V → Bool
  is_waived s now c = not s.config.rug_guard || not (s.insert_rug_verdict (verdict_of s now c))

  is_empty-full_rug :
      (s : Setting V) (now : ℕ) (c : TokenCandidate V) (reasons : List String)
      → is_empty (full_rug s now c reasons).1
        ≡ is_empty reasons && (is_waived s now c || is_revoked s c)
  unfolding full_rug classify mem is_empty
  is_empty-full_rug s now c reasons =
      let reason =
        reason_if (mem "mint_or_freeze_active" (verdict_of s now c).reasons)
          "mint_or_freeze_active" in
      ground (arith, is_empty-append reasons reason)

  is_empty-fast_rug :
      (s : Setting V) (now : ℕ) (c : TokenCandidate V) (reasons : List String)
      → is_empty (fast_rug s now c reasons).1
        ≡ is_empty reasons
          && (is_waived s now c
              || (not (lt s.config.minimum_checks.max_rug_prob (verdict_of s now c).rug_prob)
                  && is_revoked s c))
  unfolding fast_rug classify is_empty
  is_empty-fast_rug s now c reasons =
      let high = lt s.config.minimum_checks.max_rug_prob (verdict_of s now c).rug_prob in
      let reason = reason_if high "rug_probability_high" in
      ground (
        arith,
        is_empty-append reasons reason,
        is_empty-insert_all (verdict_of s now c).reasons (reasons ++ reason),
      )

  is_empty-full_reasons :
      (s : Setting V) (c : TokenCandidate V) (token : TokenSafetyResult) (lp : LpSafetyResult V)
      (holder : HolderSafetyResult V)
      → token.ok ≡ is_empty token.reasons
      → lp.ok ≡ is_empty lp.reasons
      → holder.ok ≡ is_empty holder.reasons
      → is_empty (full_reasons s c token lp holder)
        ≡ token.ok && lp.ok && holder.ok && gates_open c s.config
  is_empty-full_reasons s c token lp holder t l h = simp (
    is_empty-append,
    is_empty-unless_ok token.ok token.reasons t,
    is_empty-unless_ok lp.ok lp.reasons l,
    is_empty-unless_ok holder.ok holder.reasons h,
    is_empty-gating,
  )

  is_empty-fast_reasons :
      (s : Setting V) (c : TokenCandidate V) (token : TokenSafetyResult) (lp : LpSafetyResult V)
      (holder : HolderSafetyResult V)
      → token.ok ≡ is_empty token.reasons
      → lp.ok ≡ is_empty lp.reasons
      → holder.ok ≡ is_empty holder.reasons
      → is_empty (fast_reasons s c token lp holder)
        ≡ (token.ok && not (lt c.lp_sol s.config.minimum_checks.lp_min_sol))
          && not (lt c.uniques60 s.config.minimum_checks.uniques_min)
          && lp.ok
          && holder.ok
  is_empty-fast_reasons s c token lp holder t l h = simp (
    is_empty-append,
    is_empty-insert_all,
    is_empty-reason_if,
    is_empty-unless_ok token.ok token.reasons t,
    is_empty-unless_ok lp.ok lp.reasons l,
    is_empty-unless_ok holder.ok holder.reasons h,
  )

  -- When the reads of the chain succeed, the full evaluation accepts a candidate exactly if the
  -- mint, the liquidity and the holders are accepted, no threshold of the gating is missed, and the
  -- authorities of the mint are gone or the rug check was waived; it has a reason exactly if not.
  pub evaluate_full-ok :
      (s : Setting V) (now : ℕ) (c : TokenCandidate V) (token : TokenSafetyResult)
      (lp : LpSafetyResult V) (holder : HolderSafetyResult V)
      → check_token_safety s.chain c.mint ≡ some token
      → check_lp_safety s.chain c.lp_mint s.config.locker_programs s.config.lp_burn_threshold
        ≡ some lp
      → check_holder_skew s.chain c.mint s.config.ignore_accounts (pools c) s.config.holder_top_cap
        ≡ some holder
      → (e : SafetyEvaluation V) × (evaluate_full s now c ≡ some e)
        × (e.ok
            ≡ token.ok
              && lp.ok
              && holder.ok
              && gates_open c s.config
              && (is_waived s now c || is_revoked s c))
        × (e.ok ≡ is_empty e.reasons)
  unfolding evaluate_full
  evaluate_full-ok s now c token lp holder t l h =
      let reasons = full_reasons s c token lp holder in
      (
        full_result holder (full_rug s now c reasons),
        rw (evaluate_full, t, l, h) refl,
        ground (
          arith,
          is_empty-full_rug s now c reasons,
          is_empty-full_reasons s c token lp holder
              (check_token_safety-Reported s.chain c.mint token t)
              (check_lp_safety-Reported s.chain c.lp_mint s.config.locker_programs
                s.config.lp_burn_threshold lp l)
              (check_holder_skew-Reported s.chain c.mint s.config.ignore_accounts (pools c)
                s.config.holder_top_cap holder h),
        ),
        refl,
      )

  -- When the reads of the chain succeed, the fast evaluation accepts a candidate exactly if the
  -- mint, the liquidity and the holders are accepted at the minimums, the liquidity and the number
  -- of traders are not below theirs, and the rug check finds a probability that is not too high and
  -- authorities that are gone, or was waived; it has a reason in every case.
  pub evaluate_fast-ok :
      (s : Setting V) (now : ℕ) (c : TokenCandidate V) (token : TokenSafetyResult)
      (lp : LpSafetyResult V) (holder : HolderSafetyResult V)
      → check_token_safety s.chain c.mint ≡ some token
      → check_lp_safety s.chain c.lp_mint s.config.locker_programs
          s.config.minimum_checks.lp_burn_threshold
        ≡ some lp
      → check_holder_skew s.chain c.mint s.config.ignore_accounts
          (pools c)
          s.config.minimum_checks.holder_top_cap
        ≡ some holder
      → (e : SafetyEvaluation V) × (evaluate_fast s now c ≡ some e)
        × (e.ok
            ≡ ((token.ok && not (lt c.lp_sol s.config.minimum_checks.lp_min_sol))
                && not (lt c.uniques60 s.config.minimum_checks.uniques_min)
                && lp.ok
                && holder.ok)
              && (is_waived s now c
                  || (not (lt s.config.minimum_checks.max_rug_prob (verdict_of s now c).rug_prob)
                      && is_revoked s c)))
        × (is_empty e.reasons ≡ false)
  unfolding evaluate_fast is_empty
  evaluate_fast-ok s now c token lp holder t l h =
      let reasons = fast_reasons s c token lp holder in
      (
        fast_result holder (fast_rug s now c reasons),
        rw (evaluate_fast, t, l, h) refl,
        ground (
          arith,
          is_empty-fast_rug s now c reasons,
          is_empty-fast_reasons s c token lp holder
              (check_token_safety-Reported s.chain c.mint token t)
              (check_lp_safety-Reported s.chain c.lp_mint s.config.locker_programs
                s.config.minimum_checks.lp_burn_threshold lp l)
              (check_holder_skew-Reported s.chain c.mint s.config.ignore_accounts (pools c)
                s.config.minimum_checks.holder_top_cap holder h),
        ),
        ground arith,
      )
