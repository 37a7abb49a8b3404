-- ===== src/Executor/Examples.antt =====
-- Fees and statistics at concrete inputs.
use trenches.Base.{
  ◌≡◌, refl, List, [], ◌∷◌, none, some, Bool, true, false, String, text_discrete, take, length,
}
use trenches.Base.Dict
use trenches.Base.Number.{whole, ◌≼◌}
use trenches.Base.Fixed.{Fixed, fixed_number, Fixed-IsOrdered}
use trenches.Executor.Routes.{RouteQuarantineConfig, RouteStats, Attempt, record_all}
use trenches.Executor.Routes.Counts.{attempts_of, fails_of, record_all-Counts}
use trenches.Executor.Pricing.{
  PriorityFeeConfig, compute_priority_fee_micro_lamports, priority_fee-IsWithin,
}
use trenches.Executor.FeeBandit.{
  FeeContext, Arm, Outcome, dot_from, features, to_context_vector, decide_fees,
}
use trenches.Executor.FeeBandit.Width.{updates, run, run-take}
use trenches.Executor.Sender.{SendRequest, Rpc, send_via_jito, send_and_confirm}
use trenches.Executor.Sender.Confirmed.{IsConfirmed, send_and_confirm-IsConfirmed}
use trenches.Executor.Sender.Once.{submissions, expected, send_and_confirm-submissions}

abbrev config : RouteQuarantineConfig Fixed
config = record {
  window_minutes = 5;
  min_attempts = 2;
  fail_rate_threshold = fixed_number.ratio 1 2;
  slip_excess_weight = whole 1;
  fail_rate_weight = whole 1;
}

abbrev attempt : String → Bool → Attempt Fixed
attempt route success = record {
  route = route;
  window_start = 0;
  success = success;
  slip_real_bps = whole 3;
  slip_exp_bps = whole 2;
}

abbrev attempts : List (Attempt Fixed)
attempts = attempt "jupiter" true ∷ attempt "direct" false ∷ attempt "jupiter" false ∷ []

abbrev no_stats : RouteStats Fixed
no_stats route start = none

record_all-Counts_example :
    let row = record_all config attempts no_stats "jupiter" 0 in
    (attempts_of row ≡ 2) × (fails_of row ≡ 1)
unfolding text_discrete
record_all-Counts_example = record_all-Counts config attempts no_stats "jupiter" 0

abbrev fees : PriorityFeeConfig Fixed
fees = record {
  base_micro_lamports = none;
  floor_micro_lamports = none;
  max_micro_lamports = none;
  size_multiplier_micro_lamports = none;
  congestion_multipliers = none;
}

priority_fee-IsWithin_example :
    let fee = compute_priority_fee_micro_lamports fees (some "p90") (some (whole 2)) in
    (whole 0 ≼ fee) × (whole 4000 ≼ fee) × (fee ≼ whole 25000)
unfolding Dict.get text_discrete
priority_fee-IsWithin_example =
    priority_fee-IsWithin Fixed-IsOrdered fees (some "p90") (some (whole 2)) (whole 25000) refl refl
      refl refl refl

abbrev request : SendRequest
request = record {
  transaction = record { base64 = "tx"; signature = "sig" };
  jito_tip_lamports = some 10;
  jito_tip_tx_base64 = some "tip";
  last_valid_block_height = some 9;
  recent_blockhash = some "hash";
}

-- The bundle has no id, so that the transaction goes to the RPC.
abbrev rpc : Rpc
rpc = record {
  get_latest_blockhash = none;
  confirm_transaction = λ signature blockhash height. some (record { err = none; slot = 5 });
  post_bundle = λ transactions. some none;
  send_raw_transaction = λ raw. none;
  send_transaction = λ transaction. some "sig";
}

send_and_confirm-submissions_example :
    (submissions (send_and_confirm rpc none request).1 ≡ 1)
    × (submissions (send_and_confirm rpc (some "url") request).1
        ≡ expected rpc (send_via_jito rpc "url" request).0)
send_and_confirm-submissions_example = send_and_confirm-submissions rpc "url" request

send_and_confirm-IsConfirmed_example : IsConfirmed rpc (send_and_confirm rpc (some "url") request)
send_and_confirm-IsConfirmed_example = send_and_confirm-IsConfirmed rpc (some "url") request

abbrev fee_context : FeeContext Fixed
fee_context = record {
  congestion_score = some (whole 1);
  size_sol = whole 2;
  equity = whole 10;
  lp_sol = some (whole 20);
  spread_bps = none;
  volatility_bps = none;
}

abbrev arm : Arm Fixed
arm = record { cu_price = whole 5000; slippage_bps = whole 150 }

abbrev outcome : Outcome Fixed
outcome = record { filled = true; realized_slip_bps = whole 20; fee_bps = whole 10 }

run-take_example :
    let theta =
      (run
        (updates fee_context arm outcome ∷ [])
        (decide_fees fee_context (arm ∷ []) 3 none).1).b in
    dot_from (whole 0) theta (take (length theta) (features (to_context_vector fee_context) arm))
    ≡ dot_from (whole 0) theta (to_context_vector fee_context)
run-take_example =
    run-take fee_context (arm ∷ []) 3 (updates fee_context arm outcome ∷ []) fee_context arm
