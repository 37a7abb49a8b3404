-- ===== src/Positions/Evaluation/Quantity.antt =====
-- An evaluation leaves the quantity and the last price of its position alone.
use trenches.Base.{
  ℕ, suc, ◌≡◌, refl, ap, List, [], ◌∷◌, none, some, Bool, not, String, arith, ◌∙◌, if_cases,
  ◌or_else◌,
}
use trenches.Base.Dict
use trenches.Base.Dict.{Dict}
use trenches.Base.Number.{Number, whole}
use trenches.Positions.Exits.{Env, World, trigger_exit}
use trenches.Positions.Evaluation.{
  Level, climb, check_autokill, check_trail, check_survival, check_levels, evaluate_position,
  activate, ladder, extras, is_kill,
}
use trenches.Positions.Stops.{compute_stops}
use trenches.Positions.Evaluation.Ladder.{trigger_exit-state, climb-nil, climb-cons}

module _ {V : Type 0} ⦃d : Number V⦄ where
  unfoldable Keeps : World V → World V → Type 0
  Keeps w v = (v.state.quantity ≡ w.state.quantity) × (v.state.last_price ≡ w.state.last_price)

  unfoldable Keeping : World V → Bool × World V → Type 0
  Keeping w (b, v) = Keeps w v

  Keeps-refl : (w : World V) → Keeps w w
  unfolding Keeps
  Keeps-refl w = (refl, refl)

  Keeps-trans : (u v w : World V) → Keeps u v → Keeps v w → Keeps u w
  unfolding Keeps
  Keeps-trans u v w h k = (k.0 ∙ h.0, k.1 ∙ h.1)

  trigger_exit-Keeps :
      (env : Env V) (mint reason : String) (share : V) (w : World V)
      → Keeps w (trigger_exit env mint reason share w)
  unfolding Keeps
  trigger_exit-Keeps env mint reason share w =
      let same = trigger_exit-state env mint reason share w in
      (ap (λ s. s.quantity) same, ap (λ s. s.last_price) same)

  round-Keeps :
      (env : Env V) (mint : String) (i : ℕ) (level : Level V) (w : World V)
      → Keeps w (climb env mint i (level ∷ []) w)
  unfolding climb Keeps
  round-Keeps env mint i level w =
      let posted = trigger_exit-state env mint level.reason level.share w in ground (arith, posted)

  climb-Keeps :
      (env : Env V) (mint : String) (i : ℕ) (levels : List (Level V)) (w : World V)
      → Keeps w (climb env mint i levels w)
  climb-Keeps env mint i [] w = rw (climb-nil env mint i w) (Keeps-refl w)
  climb-Keeps env mint i (level ∷ levels) w =
      rw (climb-cons env mint i level levels w)
        (Keeps-trans _ _ _ (round-Keeps env mint i level w) (climb-Keeps env mint (suc i) levels _))

  check_trail-Keeping :
      (env : Env V) (mint : String) (width : V) (w : World V)
      → Keeping w (check_trail env mint width w)
  unfolding check_trail Keeping Keeps
  check_trail-Keeping env mint width w =
      let posted = trigger_exit-state env mint "trailing_stop" (whole 1) w in ground (arith, posted)

  -- The trailing stop after `v`, whose quantity is that of `w`, and the world that it leaves.
  trail-Keeping :
      (env : Env V) (mint : String) (width : V) (w v : World V)
      → Keeps w v
      → Keeping w (check_trail env mint width v)
  unfolding Keeping
  trail-Keeping env mint width w v h = Keeps-trans _ _ _ h (check_trail-Keeping env mint width v)

  second-Keeps : (w : World V) (x : Bool × World V) → Keeping w x → Keeps w x.1
  unfolding Keeping
  second-Keeps w x h = h

  ends-Keeping : (w : World V) (b : Bool) (v : World V) → Keeps w v → Keeping w (b, v)
  unfolding Keeping
  ends-Keeping w b v h = h

  -- What the candidate's trend leaves: a world that differs in the unique traders alone.
  uniques-Keeps : (w : World V) (uniques : Dict V) → Keeps w (record w { last_uniques = uniques })
  unfolding Keeps
  uniques-Keeps w uniques = (refl, refl)

  check_autokill-Keeping :
      (env : Env V) (mint : String) (w : World V) → Keeping w (check_autokill env mint w)
  unfolding check_autokill Dict.put trigger_exit
  check_autokill-Keeping env mint w =
      elim env.candidate
        as (λ o. Keeping w (check_autokill (record env { candidate = o }) mint w)) [
          | none ↦ ends-Keeping w _ _ (Keeps-refl w)
          | some c ↦
              let current = c.uniques60 or_else whole 0 in
              if_cases (Keeping w)
                (is_kill env.config.autokill (Dict.get mint w.last_uniques or_else current) c) _ _
                (λ e. ends-Keeping w _ _ (
                  Keeps-trans _ _ _ (uniques-Keeps w _)
                    (trigger_exit-Keeps env mint "autokill" (whole 1) _)))
                (λ e. ends-Keeping w _ _ (uniques-Keeps w _))
        ]

  activate-Keeps : (env : Env V) (w v : World V) → Keeps w v → Keeps w (activate env v)
  unfolding Keeps
  activate-Keeps env w v h = h

  check_survival-Keeping :
      (env : Env V) (mint : String) (w : World V) → Keeping w (check_survival env mint w)
  unfolding check_survival
  check_survival-Keeping env mint w =
      let cfg = env.config.survival in
      let stops = compute_stops cfg (extras env w) in
      let width = d.max (d.ratio 1 100) (d.over stops.sell_trail_bps (whole 10000)) in
      let ending = check_trail env mint width (activate env w) in
      let trail =
        second-Keeps w ending
          (trail-Keeping env mint width w _ (activate-Keeps env w w (Keeps-refl w))) in
      if_cases (Keeping w) (not env.config.survival_stops) _ _
        (λ e. ends-Keeping w _ _ (Keeps-refl w))
        (λ e.
          if_cases (Keeping w) (d.le (cfg.hazard_panic or_else d.ratio 85 100) stops.hazard) _ _
            (λ e. ends-Keeping w _ _ (trigger_exit-Keeps env mint "autokill" (whole 1) w))
            (λ e.
              if_cases (Keeping w) ending.0 _ _ (λ e. ends-Keeping w _ _ trail)
                (λ e.
                  if_cases (Keeping w)
                    (d.le (cfg.hazard_tighten or_else d.ratio 65 100) stops.hazard) _ _
                    (λ e. ends-Keeping w _ _ (Keeps-trans _ _ _ trail (climb-Keeps env mint 0 _ _)))
                    (λ e. ends-Keeping w _ _ trail))))

  check_levels-Keeps :
      (env : Env V) (mint : String) (w : World V) → Keeps w (check_levels env mint w)
  unfolding check_levels
  check_levels-Keeps env mint w =
      let v = activate env (climb env mint 0 (ladder env w.state.avg_price) w) in
      let climbed =
        activate-Keeps env w _ (climb-Keeps env mint 0 (ladder env w.state.avg_price) w) in
      let ending = check_trail env mint (d.over env.config.trail_pct (whole 100)) v in
      let trail = second-Keeps w ending (trail-Keeping env mint _ w v climbed) in
      let stop =
        d.times ending.1.state.avg_price
          (d.minus (whole 1) (d.over env.config.hard_stop_loss_pct (whole 100))) in
      if_cases (Keeps w) ending.0 _ _ (λ e. trail)
        (λ e.
          if_cases (Keeps w) (d.le env.price stop) _ _
            (λ e. Keeps-trans _ _ _ trail (trigger_exit-Keeps env mint "hard_stop" (whole 1) _))
            (λ e. trail))

  evaluate_position-Keeps :
      (env : Env V) (mint : String) (w : World V) → Keeps w (evaluate_position env mint w)
  unfolding evaluate_position
  evaluate_position-Keeps env mint w =
      let killed = check_autokill env mint w in
      let stopped = check_survival env mint killed.1 in
      let first = second-Keeps w killed (check_autokill-Keeping env mint w) in
      let second =
        Keeps-trans _ _ _ first
          (second-Keeps _ stopped (check_survival-Keeping env mint killed.1)) in
      if_cases (Keeps w) (d.le w.state.quantity (whole 0)) _ _ (λ e. Keeps-refl w)
        (λ e.
          if_cases (Keeps w) killed.0 _ _ (λ e. first)
            (λ e.
              if_cases (Keeps w) stopped.0 _ _ (λ e. second)
                (λ e. Keeps-trans _ _ _ second (check_levels-Keeps env mint stopped.1))))

  pub evaluate_position-quantity :
      (env : Env V) (mint : String) (w : World V)
      → (evaluate_position env mint w).state.quantity ≡ w.state.quantity
  unfolding Keeps
  evaluate_position-quantity env mint w = (evaluate_position-Keeps env mint w).0

  pub evaluate_position-last_price :
      (env : Env V) (mint : String) (w : World V)
      → (evaluate_position env mint w).state.last_price ≡ w.state.last_price
  unfolding Keeps
  evaluate_position-last_price env mint w = (evaluate_position-Keeps env mint w).1
