-- ===== src/Safety/Examples.antt =====
-- A candidate whose liquidity is burnt, and one of which a locker holds the liquidity.
use trenches.Base.{
  All, ◌≡◌, refl, List, [], ◌∷◌, none, some, true, false, not, ◌&&◌, ◌||◌, ◌≤◌, ◌+◌, take,
  text_discrete,
}
use trenches.Base.Dict
use trenches.Base.Sets.{mem}
use trenches.Base.Number.{whole}
use trenches.Base.Fixed.{Fixed, fixed_number}
use trenches.Util.TtlCache
use trenches.Util.TtlCache.{TtlCache}
use trenches.Safety.Chain.{Chain, LargestAccount, TokenSupply}
use trenches.Safety.Reasons.{is_empty}
use trenches.Safety.Token.{TokenSafetyResult, check_token_safety}
use trenches.Safety.Lp.{
  LpSafetyResult, incinerator_ratio, check_lp_safety, judge_lp, supply_of, no_supply,
}
use trenches.Safety.Lp.Locked.{IsVerdict, any_locked, check_lp_safety-IsVerdict}
use trenches.Safety.Holder.{
  HolderSafetyResult, check_holder_skew, judge_holders, present, amount_from,
}
use trenches.Safety.Rugguard.{TokenCandidate}
use trenches.Safety.Engine.{
  SafetyConfig, SafetyEvaluation, Setting, pools, verdict_of, evaluate_full, evaluate_fast,
  evaluate_candidate,
}
use trenches.Safety.Engine.Verdicts.{
  gates_open, is_revoked, is_waived, evaluate_full-ok, evaluate_fast-ok,
}
use trenches.Safety.Engine.Cached
use trenches.Safety.Engine.Cached.{fresh, evaluate_candidate-fresh}

abbrev burnt : LargestAccount Fixed
burnt = record {
  address = some "1nc1nerator11111111111111111111111111111111";
  ui_amount = some (whole 90);
}

abbrev held : LargestAccount Fixed
held = record { address = some "Locked"; ui_amount = some (whole 10) }

abbrev supply : TokenSupply Fixed
supply = record { amount = whole 1000; decimals = 0 }

abbrev chain_of : List (LargestAccount Fixed) → Chain Fixed
chain_of accounts = record {
  get_account_info = λ address. some (some (record { owner = "Locker"; bytes = [] }));
  get_token_largest_accounts = λ mint. some accounts;
  get_token_supply = λ mint. some supply;
  get_parsed_account_info = λ mint. some none;
  has_freeze_authority = λ account. some false;
  get_extension_types = λ bytes. some [];
  get_extension_data = λ kind bytes. some none;
  token_2022_program_id = "Token2022";
  to_lower_case = λ s. s;
}

abbrev config : SafetyConfig Fixed
config = record {
  sss_threshold = whole 1;
  velocity_threshold = whole 1;
  minimum_checks = record {
    lp_min_sol = whole 5;
    uniques_min = whole 2;
    lp_burn_threshold = whole 0;
    holder_top_cap = whole 1;
    max_rug_prob = whole 1;
  };
  gating = record {
    lp_min_sol = whole 5;
    buys_sell_ratio_min = whole 1;
    uniques_min = whole 2;
    min_pool_age_sec = whole 10;
    max_spread_bps = whole 100;
  };
  locker_programs = "Locker" ∷ [];
  ignore_accounts = "1nc1nerator11111111111111111111111111111111" ∷ [];
  lp_burn_threshold = whole 0;
  holder_top_cap = whole 1;
  rug_guard = true;
}

abbrev candidate : TokenCandidate Fixed
candidate = record {
  mint = "Mint";
  age_sec = whole 60;
  lp_sol = whole 40;
  buys60 = whole 9;
  sells60 = whole 3;
  uniques60 = whole 6;
  spread_bps = whole 20;
  pool_address = none;
  lp_mint = some "LpMint";
  pool_coin_account = none;
  pool_pc_account = none;
  social_sss = none;
  social_velocity = none;
}

abbrev setting : Setting Fixed
setting = record {
  chain = chain_of (burnt ∷ held ∷ []);
  config = config;
  model = none;
  insert_rug_verdict = λ verdict. true;
}

abbrev token : TokenSafetyResult
token = record { ok = true; reasons = []; is_token2022 = false }

abbrev lp : LpSafetyResult Fixed
lp = record {
  ok = true;
  reasons = [];
  locked_ratio = fixed_number.over (whole 90) (supply_of setting.chain supply);
}

abbrev holder : HolderSafetyResult Fixed
holder = record {
  ok = true;
  reasons = [];
  top_ten_share = fixed_number.over (whole 10) (supply_of setting.chain supply);
  whale_flag = false;
}

token_holds : check_token_safety setting.chain candidate.mint ≡ some token
unfolding check_token_safety text_discrete
token_holds = refl

lp_holds :
    check_lp_safety setting.chain candidate.lp_mint config.locker_programs config.lp_burn_threshold
    ≡ some lp
unfolding check_lp_safety judge_lp incinerator_ratio text_discrete
lp_holds = refl

holder_holds :
    check_holder_skew setting.chain candidate.mint config.ignore_accounts
      (pools candidate)
      config.holder_top_cap
    ≡ some holder
unfolding check_holder_skew judge_holders present amount_from mem text_discrete
holder_holds = refl

evaluate_full-ok_example :
    (e : SafetyEvaluation Fixed) × (evaluate_full setting 7 candidate ≡ some e)
    × (e.ok
        ≡ true
          && true
          && true
          && gates_open candidate config
          && (is_waived setting 7 candidate || is_revoked setting candidate))
    × (e.ok ≡ is_empty e.reasons)
evaluate_full-ok_example =
    evaluate_full-ok setting 7 candidate token lp holder token_holds lp_holds holder_holds

evaluate_fast-ok_example :
    let checks = config.minimum_checks in
    (e : SafetyEvaluation Fixed) × (evaluate_fast setting 7 candidate ≡ some e)
    × (e.ok
        ≡ ((true && not (fixed_number.lt candidate.lp_sol checks.lp_min_sol))
            && not (fixed_number.lt candidate.uniques60 checks.uniques_min)
            && true
            && true)
          && (is_waived setting 7 candidate
              || (not
                    (fixed_number.lt checks.max_rug_prob (verdict_of setting 7 candidate).rug_prob)
                  && is_revoked setting candidate)))
    × (is_empty e.reasons ≡ false)
evaluate_fast-ok_example =
    evaluate_fast-ok setting 7 candidate token lp holder token_holds lp_holds holder_holds

abbrev empty_cache : TtlCache (SafetyEvaluation Fixed)
empty_cache = TtlCache.init 60000

nothing_cached : (TtlCache.get candidate.mint 7 empty_cache).0 ≡ none
unfolding TtlCache.get TtlCache.init Dict.get
nothing_cached = refl

evaluate_candidate-fresh_example :
    let (found, cache') = evaluate_candidate setting 7 8 candidate empty_cache in
    (found ≡ fresh setting 7 candidate)
    × ((e : SafetyEvaluation Fixed) (xs : List (Cached.Call Fixed)) (x : Cached.Call Fixed)
        → found ≡ some e
        → All (λ (y : Cached.Call Fixed). y.now ≤ 8 + empty_cache.ttl_ms) (x ∷ xs)
        → x.candidate.mint ≡ candidate.mint
        → (evaluate_candidate x.setting x.now x.later x.candidate (Cached.run xs cache')).0
          ≡ some e)
    × (found ≡ none → cache' ≡ (TtlCache.get candidate.mint 7 empty_cache).1)
evaluate_candidate-fresh_example =
    evaluate_candidate-fresh setting 7 8 candidate empty_cache nothing_cached

check_lp_safety-IsVerdict_example :
    let total = supply_of setting.chain supply in
    (r : LpSafetyResult Fixed) × (check_lp_safety setting.chain
        (some "LpMint")
        ("Locker" ∷ [])
        (whole 1)
      ≡ some r)
    × IsVerdict setting.chain
        (whole 1)
        (not (no_supply setting.chain total)
          && (fixed_number.le (whole 1) (incinerator_ratio setting.chain total (burnt ∷ held ∷ []))
              || any_locked setting.chain
                  ("Locker" ∷ [])
                  (whole 1)
                  total
                  (take 10 (burnt ∷ held ∷ []))))
        r
unfolding text_discrete
check_lp_safety-IsVerdict_example =
    check_lp_safety-IsVerdict setting.chain (some "LpMint") ("Locker" ∷ []) (whole 1) "LpMint"
      (burnt ∷ held ∷ []) supply refl refl refl
