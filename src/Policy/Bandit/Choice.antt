-- ===== src/Policy/Bandit/Choice.antt =====
-- The action that a selection takes.
use trenches.Base.{ℕ, ◌≡◌, List, none, false}
use trenches.Base.Best.{IsIn, IsBelow, IsNumberResult, IsFrom, choose-IsBelow, choose-IsFrom}
use trenches.Base.Number.{Number, IsOrdered}
use trenches.Policy.Bandit.{BanditAction, LinUcbBandit, score_action, reward_of, select}

module _ {V : Type 0} ⦃d : Number V⦄ (laws : IsOrdered V) where
  -- A selection that does not explore, of numbers, takes one of the actions with its score, and no
  -- action has a higher one.
  pub select-IsBelow :
      (floor draw : V) (pick : ℕ) (context : List V) (bandit : LinUcbBandit V)
      → d.lt draw floor ≡ false
      → ((action : BanditAction V)
          → IsNumberResult laws reward_of (score_action bandit context action))
      → let best = (select floor draw pick context bandit).0 in
        IsFrom (score_action bandit context) bandit.actions best
        × ((action : BanditAction V)
            → IsIn action bandit.actions
            → IsBelow laws reward_of (score_action bandit context action) best)
  unfolding select
  select-IsBelow floor draw pick context bandit exploits numbers =
      let scored = score_action bandit context in
      rw (select, exploits)
        (
          choose-IsFrom reward_of scored bandit.actions,
          (choose-IsBelow laws reward_of scored bandit.actions none numbers tt).1,
        )
