-- ===== src/Policy/Plan/Guards.antt =====
-- What holds of a candidate that is planned.
use trenches.Base.{
  ℕ, ◌+◌, ◌≤◌, ◌⊎◌, inl, inr, [], ◌∷◌, Option-cases, Bool-cases, ap, sym, ◌∙◌, ◌<◌, ◌≡◌, List,
  Option, none, some, Bool, true, false, ◌&&◌, String, arith, if◌then◌else◌,
}
use trenches.Base.Dict.{Dict}
use trenches.Base.Number.{Number, whole}
use trenches.Policy.Alpha.{AlphaConfig, AlphaEntry, alpha_gate, best_score}
use trenches.Policy.Plan.{
  Candidate, Wallet, Limits, Ledger, OrderPlan, Decision, Situation, suppressed, planned,
}

-- A count that was read is below its limit.
abbrev pub IsUnder : Option ℕ → Option ℕ → Type 0
IsUnder (some limit) (some n) = n < limit
IsUnder limit n = Unit

module _ {V : Type 0} ⦃d : Number V⦄ where
  abbrev pub plan_in : Decision V → Option (OrderPlan V)
  plan_in (suppressed reason) = none
  plan_in (planned plan) = some plan

  abbrev pub IsNoRug : Option V → Type 0
  IsNoRug none = Unit
  IsNoRug (some p) = d.lt (d.ratio 8 10) p ≡ false

  abbrev pub HasFree : Option V → V → Type 0
  HasFree none free = Unit
  HasFree (some least) free = d.eq least least && d.lt free least ≡ false

  -- The new positions of the day, unless the open ones cannot be counted where that is asked.
  abbrev pub IsNewUnder : Limits V → Ledger V → Type 0
  IsNewUnder l db = elim l.max_open_positions [
    | none ↦ IsUnder l.max_daily_new db.new_positions_today
    | some limit ↦ elim db.open_positions [
      | none ↦ Unit
      | some n ↦ IsUnder l.max_daily_new db.new_positions_today
    ]
  ]

  -- One of the answers is at most five minutes old, and its score with the boost is not below the
  -- minimum.
  abbrev pub IsScored : AlphaConfig V → Bool → ℕ → List (Option (AlphaEntry V)) → Type 0
  IsScored cfg leader now [] = ⊥
  IsScored cfg leader now (none ∷ entries) = IsScored cfg leader now entries
  IsScored cfg leader now (some e ∷ entries) =
      ((now ≤ e.updated_at + 300_000)
        × (d.lt (if leader then d.plus e.score cfg.rank_boost else e.score) cfg.min_score ≡ false))
      ⊎ IsScored cfg leader now entries

  -- No answer has a score.
  abbrev pub IsUnscored : List (Option (AlphaEntry V)) → Type 0
  IsUnscored [] = Unit
  IsUnscored (none ∷ entries) = IsUnscored entries
  IsUnscored (some e ∷ entries) = ⊥

  best_score-none :
      (now : ℕ) (entries : List (Option (AlphaEntry V))) (best : Option (AlphaEntry V)) (saw : Bool)
      → (best_score now entries best saw).0 ≡ none
      → (best_score now entries best saw).1 ≡ false
      → (best ≡ none) × (saw ≡ false) × IsUnscored entries
  unfolding best_score
  best_score-none now [] best saw e h = (e, h, tt)
  best_score-none now (none ∷ entries) best saw e h = best_score-none now entries best saw e h
  best_score-none now (some x ∷ entries) best saw e h =
      let rest = best_score-none now entries _ _ e h in absurd (ground (arith, rest))

  best_score-some :
      (cfg : AlphaConfig V) (leader : Bool) (now : ℕ) (entries : List (Option (AlphaEntry V)))
      (best : Option (AlphaEntry V)) (saw : Bool) (x : AlphaEntry V)
      → (best_score now entries best saw).0 ≡ some x
      → d.lt (if leader then d.plus x.score cfg.rank_boost else x.score) cfg.min_score ≡ false
      → (best ≡ some x) ⊎ IsScored cfg leader now entries
  unfolding best_score
  best_score-some cfg leader now [] best saw x e h = inl e
  best_score-some cfg leader now (none ∷ entries) best saw x e h =
      best_score-some cfg leader now entries best saw x e h
  best_score-some cfg leader now (some y ∷ entries) best saw x e h =
      let rest = best_score-some cfg leader now entries _ _ x e h in ground (arith, rest, h)

  alpha_gate-IsScored :
      (cfg : AlphaConfig V) (now : ℕ) (mint : String) (leader : Bool)
      (entries : List (Option (AlphaEntry V))) (scores : Dict (AlphaEntry V))
      → cfg.alpha_ranker ≡ true
      → (alpha_gate cfg now mint leader (some entries) scores).0 ≡ none
      → IsUnscored entries ⊎ IsScored cfg leader now entries
  unfolding alpha_gate
  alpha_gate-IsScored cfg now mint leader entries scores on h =
      elim (Option-cases (best_score now entries none false).0) [
        | inl e ↦ inl (best_score-none now entries none false e (ground (arith, on, h, e))).2
        | inr (x, e) ↦
            elim (best_score-some cfg leader now entries none false x e
              (ground (arith, on, h, e))) [
                | inl none-some ↦ absurd (ground arith)
                | inr scored ↦ inr scored
              ]
      ]

  -- The wallet is ready, has the least that is to stay free, and something left to spend.
  abbrev pub CanPay : Limits V → Wallet V → Type 0
  CanPay l w =
      (w.ready ≡ true) × HasFree l.min_free_sol w.free × (d.le w.spend_remaining (whole 0) ≡ false)

  -- The caps on positions and the day's loss.
  abbrev pub IsCapped : Limits V → Wallet V → Ledger V → Type 0
  IsCapped l w db =
      IsUnder l.max_open_positions db.open_positions
      × IsNewUnder l db
      × (d.lt db.daily_realized_pnl (whole 0)
            && d.le (d.times l.daily_loss_cap_pct w.equity) (d.abs db.daily_realized_pnl)
          ≡ false)

  -- The order is for the candidate and the rounded size, which is not too small.
  abbrev pub IsOrder : (V → V) → V → Candidate V → OrderPlan V → Type 0
  IsOrder to_fixed size c plan =
      (d.le size (whole 0) ≡ false)
      × (plan.size_sol ≡ to_fixed size)
      × (d.lt plan.size_sol (d.ratio 1 1000) ≡ false)
      × (plan.mint ≡ c.mint)

  -- The ranker is off, or could not be asked, or has no score of the mint, or has one that is recent and
  -- not below the minimum.
  abbrev pub IsRanked : AlphaConfig V → Situation V → Type 0
  IsRanked cfg x =
      (cfg.alpha_ranker ≡ false)
      ⊎ (x.answers ≡ none)
      ⊎ ((entries : List (Option (AlphaEntry V))) × (x.answers ≡ some entries)
          × (IsUnscored entries ⊎ IsScored cfg x.leader x.now entries))

  ranked :
      (cfg : AlphaConfig V) (x : Situation V) (mint : String) (scores : Dict (AlphaEntry V))
      → (alpha_gate cfg x.now mint x.leader x.answers scores).0 ≡ none
      → IsRanked cfg x
  ranked cfg x mint scores h = elim (Bool-cases cfg.alpha_ranker) [
    | inr off ↦ inl off
    | inl on ↦ elim (Option-cases x.answers) [
      | inl e ↦ inr (inl e)
      | inr (entries, e) ↦
          let open' = ap (λ a. (alpha_gate cfg x.now mint x.leader a scores).0) (sym e) ∙ h in
          inr
            (inr (entries, e, alpha_gate-IsScored cfg x.now mint x.leader entries scores on open'))
    ]
  ]
