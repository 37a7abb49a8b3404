-- ===== src/Policy/Bandit/Examples.antt =====
-- Two actions over two features.
use trenches.Base.{◌≡◌, List, [], ◌∷◌, true, false, map, String}
use trenches.Base.Number.{whole}
use trenches.Base.Fixed.{Fixed, fixed_number}
use trenches.Policy.Bandit.{BanditAction, create}
use trenches.Policy.Bandit.Shape.{AllSized}
use trenches.Policy.Bandit.History.{Call, selects, updates, fails, run, run-IsShaped}

abbrev action : String → BanditAction Fixed
action id = record {
  id = id;
  gate = "normal";
  slippage_bps = whole 100;
  tip_percentile = "p50";
  size_multiplier = whole 1;
}

abbrev actions : List (BanditAction Fixed)
actions = action "a" ∷ action "b" ∷ []

-- A context that is too short, a write that fails, and an arm that no action has.
abbrev calls : List (Call Fixed)
calls =
    selects (whole 0) (whole 1) 0 (whole 1 ∷ whole 2 ∷ [])
    ∷ updates "a" (whole 1 ∷ []) (whole 3) false
    ∷ updates "c" (whole 1 ∷ whole 2 ∷ []) (whole 3) true
    ∷ []

run-IsShaped_example :
    let (threw, bandit) = run calls (create 2 (whole 2) actions []) in
    (threw ≡ map fails calls) × AllSized 2 bandit.state
run-IsShaped_example = run-IsShaped 2 (whole 2) actions [] calls
