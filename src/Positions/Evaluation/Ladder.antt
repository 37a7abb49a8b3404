-- ===== src/Positions/Evaluation/Ladder.antt =====
-- The ladder levels that an evaluation marks.
use trenches.Base.{ℕ, suc, ◌≡◌, refl, ap, List, [], ◌∷◌, Bool, true, String, arith, not, ◌||◌, ◌∙◌}
use trenches.Base.Number.{Number}
use trenches.Util.TtlCache.{TtlCache}
use trenches.Positions.Exits.{Env, World, trigger_exit}
use trenches.Positions.Evaluation.{Level, has_hit, add_hit, climb}

module _ {V : Type 0} ⦃d : Number V⦄ where
  pub trigger_exit-state :
      (env : Env V) (mint reason : String) (share : V) (w : World V)
      → (trigger_exit env mint reason share w).state ≡ w.state
  unfolding trigger_exit
  trigger_exit-state env mint reason share w = ground arith

  -- One round of the loop, on states that agree.
  round-state :
      (env : Env V) (mint : String) (i : ℕ) (level : Level V) (w v : World V)
      → w.state ≡ v.state
      → (climb env mint i (level ∷ []) w).state ≡ (climb env mint i (level ∷ []) v).state
  unfolding climb
  round-state env mint i level w v h =
      let posted = trigger_exit-state env mint level.reason level.share w in
      let other = trigger_exit-state env mint level.reason level.share v in
      ground (arith, h, posted, other)

  pub climb-cons :
      (env : Env V) (mint : String) (i : ℕ) (level : Level V) (levels : List (Level V))
      (w : World V)
      → climb env mint i (level ∷ levels) w
        ≡ climb env mint (suc i) levels (climb env mint i (level ∷ []) w)
  unfolding climb
  climb-cons env mint i level levels w = refl

  pub climb-nil : (env : Env V) (mint : String) (i : ℕ) (w : World V) → climb env mint i [] w ≡ w
  unfolding climb
  climb-nil env mint i w = refl

  climb-agrees :
      (env : Env V) (mint : String) (i : ℕ) (levels : List (Level V)) (w v : World V)
      → w.state ≡ v.state
      → (climb env mint i levels w).state ≡ (climb env mint i levels v).state
  climb-agrees env mint i [] w v h = rw (climb-nil env mint i w, climb-nil env mint i v) h
  climb-agrees env mint i (level ∷ levels) w v h =
      rw (climb-cons env mint i level levels w, climb-cons env mint i level levels v)
        (climb-agrees env mint (suc i) levels _ _ (round-state env mint i level w v h))

  -- The levels marked as hit do not depend on the exits under way: a level whose exit was held back,
  -- because one with its key is pending, is marked as if it had been posted.
  pub climb-state :
      (env : Env V) (mint : String) (i : ℕ) (levels : List (Level V)) (w : World V)
      (other : TtlCache Bool)
      → (climb env mint i levels w).state
        ≡ (climb env mint i levels (record w { pending = other })).state
  climb-state env mint i levels w other = climb-agrees env mint i levels w _ refl

-- Every level from index `i` on is marked or out of reach at the price.
abbrev IsMarked : {V : Type 0} ⦃d : Number V⦄ → V → ℕ → List (Level V) → List ℕ → Type 0
IsMarked price i [] hits = Unit
IsMarked ⦃d⦄ price i (level ∷ levels) hits =
    (has_hit i hits || not (d.le level.target price) ≡ true) × IsMarked price (suc i) levels hits

has_hit-add_hit_self : (i : ℕ) (hits : List ℕ) → has_hit i (add_hit i hits) ≡ true
has_hit-add_hit_self i hits = ground arith

has_hit-add_hit :
    (j i : ℕ) (hits : List ℕ) → has_hit j hits ≡ true → has_hit j (add_hit i hits) ≡ true
has_hit-add_hit j i hits h = ground arith

module _ {V : Type 0} ⦃d : Number V⦄ where
  -- One round marks its level, unless that is out of reach, and keeps the marks there are.
  round-marks :
      (env : Env V) (mint : String) (i : ℕ) (level : Level V) (w : World V)
      → has_hit i (climb env mint i (level ∷ []) w).state.ladder_hits
          || not (d.le level.target env.price)
        ≡ true
  unfolding climb
  round-marks env mint i level w =
      let posted = trigger_exit-state env mint level.reason level.share w in
      let self = has_hit-add_hit_self i w.state.ladder_hits in ground (arith, posted, self)

  round-keeps :
      (env : Env V) (mint : String) (i j : ℕ) (level : Level V) (w : World V)
      → has_hit j w.state.ladder_hits ≡ true
      → has_hit j (climb env mint i (level ∷ []) w).state.ladder_hits ≡ true
  unfolding climb
  round-keeps env mint i j level w h =
      let posted = trigger_exit-state env mint level.reason level.share w in
      let kept = has_hit-add_hit j i w.state.ladder_hits h in ground (arith, posted, kept)

  climb-keeps :
      (env : Env V) (mint : String) (i j : ℕ) (levels : List (Level V)) (w : World V)
      → has_hit j w.state.ladder_hits ≡ true
      → has_hit j (climb env mint i levels w).state.ladder_hits ≡ true
  climb-keeps env mint i j [] w h = rw (climb-nil env mint i w) h
  climb-keeps env mint i j (level ∷ levels) w h =
      rw (climb-cons env mint i level levels w)
        (climb-keeps env mint (suc i) j levels _ (round-keeps env mint i j level w h))

  climb-IsMarked :
      (env : Env V) (mint : String) (i : ℕ) (levels : List (Level V)) (w : World V)
      → IsMarked env.price i levels (climb env mint i levels w).state.ladder_hits
  climb-IsMarked env mint i [] w = tt
  climb-IsMarked env mint i (level ∷ levels) w =
      let w' = climb env mint i (level ∷ []) w in
      let marked = round-marks env mint i level w in
      let kept = climb-keeps env mint (suc i) i levels w' in
      rw (climb-cons env mint i level levels w)
        (ground (arith, marked, kept), climb-IsMarked env mint (suc i) levels w')

  round-skips :
      (env : Env V) (mint : String) (i : ℕ) (level : Level V) (w : World V)
      → has_hit i w.state.ladder_hits || not (d.le level.target env.price) ≡ true
      → climb env mint i (level ∷ []) w ≡ w
  unfolding climb
  round-skips env mint i level w h = rw h refl

  climb-skips :
      (env : Env V) (mint : String) (i : ℕ) (levels : List (Level V)) (w : World V)
      → IsMarked env.price i levels w.state.ladder_hits
      → climb env mint i levels w ≡ w
  climb-skips env mint i [] w h = climb-nil env mint i w
  climb-skips env mint i (level ∷ levels) w h =
      climb-cons env mint i level levels w
      ∙ ap (climb env mint (suc i) levels) (round-skips env mint i level w h.0)
      ∙ climb-skips env mint (suc i) levels w h.1

  -- A level sells once: a second pass over the same levels at the same price changes nothing and
  -- posts nothing, at whatever time and with whatever exits under way.
  pub climb-once :
      (env : Env V) (mint : String) (later : ℕ) (levels : List (Level V)) (w : World V)
      (other : TtlCache Bool)
      → let w' = record (climb env mint 0 levels w) { pending = other } in
        climb (record env { now = later }) mint 0 levels w' ≡ w'
  climb-once env mint later levels w other =
      climb-skips (record env { now = later }) mint 0 levels _ (climb-IsMarked env mint 0 levels w)
