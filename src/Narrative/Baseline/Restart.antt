-- ===== src/Narrative/Baseline/Restart.antt =====
-- What a manager that starts anew reads from the store.
use trenches.Base.{
  ℕ, ◌≡◌, refl, sym, ◌∙◌, ap, List, [], ◌∷◌, Option, none, some, String, arith, Option-cases, inl,
  inr,
}
use trenches.Base.Dict
use trenches.Base.Dict.{Dict, IsDict}
use trenches.Base.Sets.{mem}
use trenches.Base.Number.{Number}
use trenches.Narrative.Baseline.{
  Counts, BaselineEntry, PhraseBaselineRow, BaselineManager, apply_decay, snapshot,
  apply_observation, flush, loaded, initialize,
}
use trenches.Narrative.Baseline.Stored.{
  row_for, works, IsSynced, observation-IsSynced, flush-IsSynced,
}

-- What happens to the manager: observations and flushes.
pub data Event (V : Type 0) : Type 0 where
  observes : String → Counts V → ℕ → Event V
  flushes : Event V

module _ {V : Type 0} ⦃d : Number V⦄ where
  abbrev step :
      Event V
      → BaselineManager V × Dict (PhraseBaselineRow V)
      → BaselineManager V × Dict (PhraseBaselineRow V)
  step (observes phrase delta now) (m, store) = ((apply_observation phrase delta now m).1, store)
  step flushes (m, store) = flush works m store

  -- The latest event comes first.
  unfoldable pub run :
      List (Event V) → BaselineManager V → BaselineManager V × Dict (PhraseBaselineRow V)
  run [] m = (m, [])
  run (e ∷ earlier) m = step e (run earlier m)

  unfoldable pub fresh : V → BaselineManager V
  fresh half_life_ms = record { half_life_ms = half_life_ms; entries = []; dirty = [] }

  run-IsSynced :
      (events : List (Event V)) (half_life_ms : V)
      → let (m, store) = run events (fresh half_life_ms) in IsSynced m store
  unfolding run fresh mem Dict.get
  run-IsSynced [] half_life_ms = record {
    clean = λ p h. refl;
    known = λ p h. absurd (ground (arith, h));
    keyed = tt;
  }
  run-IsSynced (observes phrase delta now ∷ earlier) half_life_ms =
      observation-IsSynced phrase delta now _ _ (run-IsSynced earlier half_life_ms)
  run-IsSynced (flushes ∷ earlier) half_life_ms =
      flush-IsSynced _ _ (run-IsSynced earlier half_life_ms)

  half_life-run :
      (events : List (Event V)) (half_life_ms : V)
      → (run events (fresh half_life_ms)).0.half_life_ms ≡ half_life_ms
  unfolding run fresh apply_observation flush
  half_life-run [] half_life_ms = refl
  half_life-run (observes phrase delta now ∷ earlier) half_life_ms =
      half_life-run earlier half_life_ms
  half_life-run (flushes ∷ earlier) half_life_ms = half_life-run earlier half_life_ms

  abbrev restored :
      ℕ → Option (PhraseBaselineRow V) → Option (BaselineEntry V) → Option (BaselineEntry V)
  restored now none before = before
  restored now (some row) before = some (loaded now row)

  get-initialize :
      (now : ℕ) (store : Dict (PhraseBaselineRow V)) (m : BaselineManager V) (p : String)
      → IsDict store
      → Dict.get p (initialize now store m).entries
        ≡ restored now (Dict.get p store) (Dict.get p m.entries)
  unfolding initialize Dict.get
  get-initialize now [] m p h = refl
  get-initialize now ((k, row) ∷ rows) m p h = ground (
    arith,
    h,
    get-initialize now rows (record m { entries = Dict.put k (loaded now row) m.entries }) p h.1,
    Dict.get-put k p (loaded now row) m.entries,
  )

  half_life-initialize :
      (now : ℕ) (store : Dict (PhraseBaselineRow V)) (m : BaselineManager V)
      → (initialize now store m).half_life_ms ≡ m.half_life_ms
  unfolding initialize
  half_life-initialize now [] m = refl
  half_life-initialize now ((k, row) ∷ rows) m =
      half_life-initialize now rows (record m { entries = Dict.put k (loaded now row) m.entries })

  restored-row_for :
      (now : ℕ) (p : String) (o : Option (BaselineEntry V)) → restored now (row_for p o) none ≡ o
  restored-row_for now p none = refl
  restored-row_for now p (some entry) = refl

  -- A snapshot reads the half-life and the entry of the phrase, and no more.
  snapshot_lem :
      (phrase : String) (now : ℕ) (m m' : BaselineManager V)
      → m'.half_life_ms ≡ m.half_life_ms
      → Dict.get phrase m'.entries ≡ Dict.get phrase m.entries
      → snapshot phrase now m' ≡ snapshot phrase now m
  unfolding snapshot
  snapshot_lem phrase now m m' h e = elim (Option-cases (Dict.get phrase m.entries)) [
    | inl n ↦ rw (snapshot, e, n) refl
    | inr (entry, n) ↦ rw (snapshot, e, n) (ap (λ x. apply_decay x entry now) h)
  ]

  -- After any observations and flushes of which the last was a flush, none of whose writes failed,
  -- a manager that starts anew and loads the store answers every later snapshot as the old one does.
  pub initialize-flush :
      (events : List (Event V)) (half_life_ms : V) (restart : ℕ) (phrase : String) (now : ℕ)
      → let (m, store) = run (flushes ∷ events) (fresh half_life_ms) in
        snapshot phrase now (initialize restart store (fresh half_life_ms)) ≡ snapshot phrase now m
  unfolding run fresh flush Dict.get mem
  initialize-flush events half_life_ms restart phrase now =
      let (m, store) = run (flushes ∷ events) (fresh half_life_ms) in
      let synced = run-IsSynced (flushes ∷ events) half_life_ms in
      let stored = synced.clean phrase refl in
      snapshot_lem phrase now m (initialize restart store (fresh half_life_ms))
        (half_life-initialize restart store (fresh half_life_ms)
          ∙ sym (half_life-run (flushes ∷ events) half_life_ms))
        (get-initialize restart store (fresh half_life_ms) phrase synced.keyed
          ∙ ap (λ o. restored restart o none) stored
          ∙ restored-row_for restart phrase (Dict.get phrase m.entries))
