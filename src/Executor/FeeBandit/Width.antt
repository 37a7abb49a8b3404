-- ===== src/Executor/FeeBandit/Width.antt =====
-- How many features the state of the fees has.
use trenches.Base.{ℕ, suc, ◌≡◌, refl, ap, ◌∙◌, List, [], ◌∷◌, none, some, length, take}
use trenches.Base.Number.{Number, whole}
use trenches.Executor.FeeBandit.{
  FeeContext, Arm, ArmState, Outcome, zeros, add_vec, dot_from, to_context_vector, features,
  select_arm, update_arm, decide_fees,
}

-- What happens to the state: decisions and outcomes.
pub data Call (V : Type 0) : Type 0 where
  decides : FeeContext V → List (Arm V) → ℕ → Call V
  updates : FeeContext V → Arm V → Outcome V → Call V

module _ {V : Type 0} ⦃d : Number V⦄ where
  unfoldable pub run : List (Call V) → ArmState V → ArmState V
  run [] s = s
  run (decides ctx arms ts ∷ calls) s = run calls (decide_fees ctx arms ts (some s)).1
  run (updates ctx arm outcome ∷ calls) s = run calls (update_arm ctx arm outcome (some s))

  length-add_vec : (xs ys : List V) → length (add_vec xs ys) ≡ length xs
  unfolding add_vec
  length-add_vec [] ys = refl
  length-add_vec (x ∷ xs) [] = ap suc (length-add_vec xs [])
  length-add_vec (x ∷ xs) (y ∷ ys) = ap suc (length-add_vec xs ys)

  length-update_arm :
      (ctx : FeeContext V) (arm : Arm V) (outcome : Outcome V) (s : ArmState V)
      → length (update_arm ctx arm outcome (some s)).b ≡ length s.b
  unfolding update_arm
  length-update_arm ctx arm outcome s = length-add_vec s.b _

  length-run : (calls : List (Call V)) (s : ArmState V) → length (run calls s).b ≡ length s.b
  unfolding run decide_fees select_arm
  length-run [] s = refl
  length-run (decides ctx arms ts ∷ calls) s = length-run calls s
  length-run (updates ctx arm outcome ∷ calls) s =
      length-run calls (update_arm ctx arm outcome (some s)) ∙ length-update_arm ctx arm outcome s

  length-first :
      (ctx : FeeContext V) (arms : List (Arm V)) (ts : ℕ)
      → length (decide_fees ctx arms ts none).1.b ≡ 6
  unfolding decide_fees select_arm to_context_vector zeros
  length-first ctx arms ts = refl

  take-features :
      (ctx : FeeContext V) (arm : Arm V)
      → take 6 (features (to_context_vector ctx) arm) ≡ to_context_vector ctx
  unfolding features to_context_vector
  take-features ctx arm = refl

  -- When the first use of the state is a decision, the expected reward of an arm is, after any
  -- decisions and outcomes, the same for every arm: the two features of the arm have no weight.
  pub run-take :
      (ctx : FeeContext V) (arms : List (Arm V)) (ts : ℕ) (calls : List (Call V))
      (later : FeeContext V) (arm : Arm V)
      → let theta = (run calls (decide_fees ctx arms ts none).1).b in
        dot_from (whole 0) theta (take (length theta) (features (to_context_vector later) arm))
        ≡ dot_from (whole 0) theta (to_context_vector later)
  run-take ctx arms ts calls later arm =
      let s = (decide_fees ctx arms ts none).1 in
      let six = length-run calls s ∙ length-first ctx arms ts in
      ap (dot_from (whole 0) (run calls s).b)
        (ap (λ n. take n (features (to_context_vector later) arm)) six ∙ take-features later arm)
