-- ===== src/Policy/Alpha.antt =====
-- services/policy-engine/src/index.ts: the gate of the alpha scores at the head of the stream handler
-- (`bootstrap`). What `getLatestScore` answers for the configured horizons is an argument. `Array.sort`,
-- which is stable, is a stable insertion.
use trenches.Base.{
  ℕ, ◌+◌, List, [], ◌∷◌, Option, none, some, Bool, true, false, not, String, ltb, map, take,
  if◌then◌else◌,
}
use trenches.Base.Dict
use trenches.Base.Dict.{Dict}
use trenches.Base.Sets.{mem}
use trenches.Base.Number.{Number}

pub record AlphaEntry (V : Type 0) : Type 0 where
  pub score : V
  pub updated_at : ℕ

pub record AlphaConfig (V : Type 0) : Type 0 where
  pub alpha_ranker : Bool
  pub top_k : ℕ
  pub min_score : V
  pub rank_boost : V

-- `ALPHA_ENTRY_TTL_MS`.
abbrev pub alpha_entry_ttl_ms : ℕ
alpha_entry_ttl_ms = 300_000

abbrev pub is_stale : ℕ → ℕ → Bool
is_stale now updated_at = ltb (updated_at + alpha_entry_ttl_ms) now

module _ {V : Type 0} ⦃d : Number V⦄ where
  unfoldable pub drop_stale : ℕ → Dict (AlphaEntry V) → Dict (AlphaEntry V)
  drop_stale now m = Dict.keep (λ mint entry. not (is_stale now entry.updated_at)) m

  abbrev is_better : Option (AlphaEntry V) → AlphaEntry V → Bool
  is_better none entry = true
  is_better (some best) entry = d.lt best.score entry.score

  -- The loop over the horizons: the best entry so far, and whether one was stale.
  unfoldable pub best_score :
      ℕ → List (Option (AlphaEntry V)) → Option (AlphaEntry V) → Bool → Option (AlphaEntry V) × Bool
  best_score now [] best saw_stale = (best, saw_stale)
  best_score now (none ∷ entries) best saw_stale = best_score now entries best saw_stale
  best_score now (some entry ∷ entries) best saw_stale =
      best_score now entries
        (if is_stale now entry.updated_at
          then best
          else if is_better best entry
          then some entry
          else best)
        (if is_stale now entry.updated_at then true else saw_stale)

  -- `.sort((a, b) => b.score - a.score)`.
  unfoldable pub insert_ranked : String × V → List (String × V) → List (String × V)
  insert_ranked x [] = x ∷ []
  insert_ranked x (y ∷ ys) =
      let rest = insert_ranked x ys in if d.lt x.1 y.1 then y ∷ rest else x ∷ y ∷ ys

  unfoldable pub ranked : Dict (AlphaEntry V) → List (String × V)
  ranked [] = []
  ranked ((mint, entry) ∷ m) = insert_ranked (mint, entry.score) (ranked m)

  abbrev pub in_top : ℕ → String → Dict (AlphaEntry V) → Bool
  in_top k mint m = mem mint (map (λ (x : String × V). x.0) (take k (ranked m)))

  abbrev pub with_boost : AlphaConfig V → Bool → V → V
  with_boost cfg leader score = if leader then d.plus score cfg.rank_boost else score

  abbrev admit :
      AlphaConfig V → V → ℕ → String → Dict (AlphaEntry V) → Option String × Dict (AlphaEntry V)
  admit cfg score updated_at mint m =
      let m' = Dict.put mint (record { score = score; updated_at = updated_at }) m in
      if d.lt score cfg.min_score
      then (some "alpha_below_min", m')
      else if in_top cfg.top_k mint m'
      then (none, m')
      else (some "alpha_not_topk", m')

  -- The reason for which the candidate is held back, if any, and the map of the scores. `none` for
  -- the answers is an exception, which is only logged.
  unfoldable pub alpha_gate :
      AlphaConfig V
      → ℕ
      → String
      → Bool
      → Option (List (Option (AlphaEntry V)))
      → Dict (AlphaEntry V)
      → Option String × Dict (AlphaEntry V)
  alpha_gate cfg now mint leader answers m =
      let kept = drop_stale now m in
      let judged : Option String × Dict (AlphaEntry V) = elim answers [
        | none ↦ (none, kept)
        | some entries ↦
            let (best, saw_stale) = best_score now entries none false in
            elim best [
              | none ↦ (if saw_stale then some "alpha_stale" else none, Dict.remove mint kept)
              | some entry ↦
                  admit cfg (with_boost cfg leader entry.score) entry.updated_at mint kept
            ]
      ] in
      if cfg.alpha_ranker then judged else (none, kept)
