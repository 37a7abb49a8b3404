-- ===== src/Positions/Evaluation/Closed.antt =====
-- What a position without quantity keeps, over every order of fills and evaluations. The program can
-- handle a fill while an evaluation awaits the executor: such an evaluation stands here as its parts
-- between the awaits. Not among these histories are those in which another event is handled while a
-- sale awaits the oracle.
use trenches.Base.{
  ℕ, ◌≡◌, refl, ap, sym, List, [], ◌∷◌, none, some, true, false, Bool, String, arith, ◌∙◌, ◌⊎◌, inl,
  inr,
}
use trenches.Base.Number.{Number, whole, IsOrdered}
use trenches.Positions.Fills.{
  PositionState, FillEvent, sell, create_empty_state, apply_sell, apply_fill, update_mae,
}
use trenches.Positions.Exits.{Env, World}
use trenches.Positions.Evaluation.{evaluate_position}
use trenches.Positions.Evaluation.Quantity.{evaluate_position-quantity}

-- A position without quantity has no ladder level marked, no trailing stop and no entry.
abbrev pub IsClean : {V : Type 0} ⦃d : Number V⦄ → PositionState V → Type 0
IsClean ⦃d⦄ s =
    d.le s.quantity (whole 0) ≡ true
    → (s.ladder_hits ≡ [])
      × (s.trail_active ≡ false)
      × (s.entry_price ≡ none)
      × (s.low_water_price ≡ none)

-- A fill with the decimals of its mint; an evaluation that is not interrupted; or the part of an
-- evaluation from one await of an exit to the next. On the position such a part can do no more than mark
-- levels and switch the trailing stop, to what it likes here.
pub data Step (V : Type 0) : Type 0 where
  fill : ℕ → FillEvent V → Step V
  evaluate : Env V → Step V
  continues : List ℕ → Bool → Step V

module _ {V : Type 0} ⦃d : Number V⦄ where
  unfoldable pub step : String → Step V → World V → World V
  step mint (fill decimals event) w = record w { state = apply_fill decimals event w.state }
  step mint (evaluate env) w = evaluate_position env mint w
  step mint (continues hits trail) w = record w {
    state = record w.state { ladder_hits = hits; trail_active = trail };
  }

  unfoldable pub run : String → List (Step V) → World V → World V
  run mint [] w = w
  run mint (x ∷ xs) w = run mint xs (step mint x w)

  -- A buy leaves some quantity, and an evaluation that goes on after an await finds some.
  abbrev pub IsFilled : String → Step V → World V → Type 0
  IsFilled mint (fill decimals event) w =
      (event.side ≡ some sell)
      ⊎ (d.lt (whole 0) (apply_fill decimals event w.state).quantity ≡ true)
  IsFilled mint (evaluate env) w = Unit
  IsFilled mint (continues hits trail) w = d.lt (whole 0) w.state.quantity ≡ true

  abbrev pub AreFilled : String → List (Step V) → World V → Type 0
  AreFilled mint [] w = Unit
  AreFilled mint (x ∷ xs) w = IsFilled mint x w × AreFilled mint xs (step mint x w)

  update_mae-quantity :
      (price : V) (s : PositionState V) → (update_mae price s).quantity ≡ s.quantity
  unfolding update_mae
  update_mae-quantity price s = ground arith

  update_mae_closed :
      (price : V) (s : PositionState V) → d.le s.quantity (whole 0) ≡ true → update_mae price s ≡ s
  unfolding update_mae
  update_mae_closed price s h = rw h refl

  update_mae-IsClean : (price : V) (s : PositionState V) → IsClean s → IsClean (update_mae price s)
  update_mae-IsClean price s clean h =
      let still = sym (ap (λ q. d.le q (whole 0)) (update_mae-quantity price s)) ∙ h in
      rw (update_mae_closed price s still) (clean still)

  apply_sell-IsClean :
      (qty qty_tokens px : V) (s : PositionState V) → IsClean (apply_sell qty qty_tokens px s)
  unfolding apply_sell
  apply_sell-IsClean qty qty_tokens px s = ground arith

  sell-IsClean :
      (decimals : ℕ) (event : FillEvent V) (s : PositionState V)
      → event.side ≡ some sell
      → IsClean (apply_fill decimals event s)
  unfolding apply_fill
  sell-IsClean decimals event s h =
      let sold = apply_sell-IsClean event.qty _ event.px s in
      rw h (update_mae-IsClean event.px _ sold)

  evaluate_position_closed :
      (env : Env V) (mint : String) (w : World V)
      → d.le w.state.quantity (whole 0) ≡ true
      → evaluate_position env mint w ≡ w
  unfolding evaluate_position
  evaluate_position_closed env mint w h = rw h refl

  evaluate_position-IsClean :
      (env : Env V) (mint : String) (w : World V)
      → IsClean w.state
      → IsClean (evaluate_position env mint w).state
  evaluate_position-IsClean env mint w clean h =
      let still = sym (ap (λ q. d.le q (whole 0)) (evaluate_position-quantity env mint w)) ∙ h in
      rw (evaluate_position_closed env mint w still) (clean still)

module _ {V : Type 0} ⦃d : Number V⦄ (laws : IsOrdered V) where
  positive : (x : V) → d.lt (whole 0) x ≡ true → d.le x (whole 0) ≡ false
  positive x h =
      let (z, n) = laws.numbers_of_lt (whole 0) x h in
      let e = laws.lt-eq-not-le (whole 0) x z n in ground (arith, e)

  step-IsClean :
      (mint : String) (x : Step V) (w : World V)
      → IsFilled mint x w
      → IsClean w.state
      → IsClean (step mint x w).state
  unfolding step
  step-IsClean mint (fill decimals event) w (inl sold) clean =
      sell-IsClean decimals event w.state sold
  step-IsClean mint (fill decimals event) w (inr h) clean =
      let pos = positive (apply_fill decimals event w.state).quantity h in ground (arith, pos)
  step-IsClean mint (evaluate env) w h clean = evaluate_position-IsClean env mint w clean
  step-IsClean mint (continues hits trail) w h clean =
      let pos = positive w.state.quantity h in ground (arith, pos)

  run_from-IsClean :
      (mint : String) (xs : List (Step V)) (w : World V)
      → AreFilled mint xs w
      → IsClean w.state
      → IsClean (run mint xs w).state
  unfolding run
  run_from-IsClean mint [] w h clean = clean
  run_from-IsClean mint (x ∷ xs) w h clean =
      run_from-IsClean mint xs (step mint x w) h.1 (step-IsClean mint x w h.0 clean)

  -- From an empty position on, over every order of fills and evaluations, also with fills handled
  -- while an evaluation awaits an exit, as long as each fill is handled to its end, a buy leaves some
  -- quantity, and an evaluation that goes on after an await finds some: a position without quantity
  -- has no ladder level marked, no trailing stop and no entry.
  pub run-IsClean :
      (mint : String) (decimals : ℕ) (xs : List (Step V)) (w : World V)
      → AreFilled mint xs (record w { state = create_empty_state mint decimals })
      → IsClean (run mint xs (record w { state = create_empty_state mint decimals })).state
  unfolding create_empty_state
  run-IsClean mint decimals xs w h = run_from-IsClean mint xs _ h (λ e. (refl, refl, refl, refl))
