-- ===== src/Safety/Rugguard.antt =====
-- services/safety-engine/src/rugguard.ts. The weights of the model file, when it has any, are an
-- argument. The feature `pumpProb`, which `classify` does not read, is left out.
use trenches.Base.{
  ℕ, ◌+◌, List, [], ◌∷◌, Option, none, some, Bool, true, false, ◌&&◌, String, ◌==◌, ◌or_else◌,
  if◌then◌else◌, length,
}
use trenches.Base.Number.{Number, whole}
use trenches.Safety.Chain.{Chain, ParsedInfo}

-- packages/shared/src/types.ts, the fields that the checks read.
pub record TokenCandidate (V : Type 0) : Type 0 where
  pub mint : String
  pub age_sec : V
  pub lp_sol : V
  pub buys60 : V
  pub sells60 : V
  pub uniques60 : V
  pub spread_bps : V
  pub pool_address : Option String
  pub lp_mint : Option String
  pub pool_coin_account : Option String
  pub pool_pc_account : Option String
  -- `candidate.social?.sss` and `.velocity`.
  pub social_sss : Option V
  pub social_velocity : Option V

pub record RugGuardVerdict (V : Type 0) : Type 0 where
  pub ts : ℕ
  pub mint : String
  pub rug_prob : V
  pub reasons : List String

pub record Features (V : Type 0) : Type 0 where
  pub lp_sol : Option V
  pub buys60 : Option V
  pub sells60 : Option V
  pub uniques60 : Option V
  pub spread_bps : Option V
  pub age_sec : Option V

unfoldable pub candidate_to_features : {V : Type 0} → TokenCandidate V → Features V
candidate_to_features c = record {
  lp_sol = some c.lp_sol;
  buys60 = some c.buys60;
  sells60 = some c.sells60;
  uniques60 = some c.uniques60;
  spread_bps = some c.spread_bps;
  age_sec = some c.age_sec;
}

abbrev pub is_null : Option String → Bool
is_null none = true
is_null (some s) = false

-- An account without parsed data counts as revoked, one that cannot be read does not.
abbrev pub revoked : Option (Option ParsedInfo) → Bool
revoked none = false
revoked (some none) = true
revoked (some (some info)) = is_null info.mint_authority && is_null info.freeze_authority

module _ {V : Type 0} ⦃d : Number V⦄ where
  open d use {ratio, plus, minus, times, over, lt, min, max, exp}

  abbrev dot_from : V → List V → List V → V
  dot_from z [] weights = z
  dot_from z (x ∷ xs) [] = z
  dot_from z (x ∷ xs) (w ∷ ws) = dot_from (plus z (times x w)) xs ws

  -- With one weight per feature, and a first one for the bias if there is one more.
  abbrev weighted : List V → List V → V → V
  weighted vector weights heuristic =
      if length weights == length vector + 1
      then elim weights [ [] ↦ heuristic | w ∷ ws ↦ dot_from w vector ws ]
      else if length weights == length vector
      then dot_from (whole 0) vector weights
      else heuristic

  abbrev modelled : List V → V → Option (List V) → V
  modelled vector heuristic none = heuristic
  modelled vector heuristic (some weights) = weighted vector weights heuristic

  unfoldable pub rug_probability : Option (List V) → Bool → Features V → V
  rug_probability model authority features =
      let lp_sol = features.lp_sol or_else whole 0 in
      let buys60 = features.buys60 or_else whole 0 in
      let sells60 = features.sells60 or_else whole 0 in
      let uniques60 = features.uniques60 or_else whole 0 in
      let spread_bps = features.spread_bps or_else whole 0 in
      let age_sec = features.age_sec or_else whole 0 in
      let flow = if lt (whole 0) sells60 then over buys60 (max (whole 1) sells60) else buys60 in
      let lp = min (whole 1) (over lp_sol (whole 50)) in
      let flows = min (whole 1) (over flow (whole 5)) in
      let uniques = min (whole 1) (over uniques60 (whole 30)) in
      let spread = min (whole 1) (over spread_bps (whole 200)) in
      let age = min (whole 1) (over age_sec (whole 600)) in
      let authority_feature = if authority then whole 0 else whole 1 in
      let vector = authority_feature ∷ lp ∷ flows ∷ uniques ∷ spread ∷ age ∷ [] in
      let base = times (if authority then minus (whole 0) (whole 1) else whole 1) (ratio 12 10) in
      let heuristic =
        minus
          (plus
            (minus (minus (minus base (times lp (ratio 6 10))) (times flows (ratio 4 10)))
              (times uniques (ratio 3 10)))
            (times spread (ratio 2 10)))
          (times age (ratio 2 10)) in
      let z = modelled vector heuristic model in
      over (whole 1) (plus (whole 1) (exp (minus (whole 0) z)))

  unfoldable pub classify : Chain V → Option (List V) → ℕ → String → Features V → RugGuardVerdict V
  classify chain model now mint features =
      let authority = revoked (chain.get_parsed_account_info mint) in
      record {
        ts = now;
        mint = mint;
        rug_prob = rug_probability model authority features;
        reasons = if authority then [] else "mint_or_freeze_active" ∷ [];
      }
