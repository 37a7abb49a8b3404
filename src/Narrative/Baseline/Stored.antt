-- ===== src/Narrative/Baseline/Stored.antt =====
-- What the store holds, and what a restart reads from it.
use trenches.Base.{
  ℕ, ◌≡◌, ◌≢◌, refl, List, [], ◌∷◌, Option, none, some, Bool, true, false, String, if◌then◌else◌,
  arith, Option-cases, Bool-cases, inl, inr,
}
use trenches.Base.Dict
use trenches.Base.Dict.{Dict, IsDict}
use trenches.Base.Sets.{mem, mem-insert}
use trenches.Base.Number.{Number}
use trenches.Narrative.Baseline.{
  Counts, BaselineEntry, PhraseBaselineRow, BaselineManager, observed, apply_observation, rows_of,
  upsert_all, flush,
}

-- No call fails.
abbrev pub works : String → Bool
works phrase = false

module _ {V : Type 0} ⦃d : Number V⦄ where
  abbrev pub row_of : String → BaselineEntry V → PhraseBaselineRow V
  row_of phrase entry = record {
    phrase = phrase;
    counts = entry.counts;
    updated_at = some entry.updated_at_ms;
  }

  abbrev pub row_for : String → Option (BaselineEntry V) → Option (PhraseBaselineRow V)
  row_for phrase none = none
  row_for phrase (some entry) = some (row_of phrase entry)

  -- The row of an entry, or else what was there.
  abbrev later :
      String
      → Option (BaselineEntry V)
      → Option (PhraseBaselineRow V)
      → Option (PhraseBaselineRow V)
  later p none before = before
  later p (some entry) before = some (row_of p entry)

  -- What a phrase has in the store after its row was written, if it is one of those.
  get-upsert_all :
      (entries : Dict (BaselineEntry V)) (phrases : List String)
      (store : Dict (PhraseBaselineRow V)) (p : String)
      → Dict.get p (upsert_all works (rows_of entries phrases) store) ≡ (
          if mem p phrases
          then later p (Dict.get p entries) (Dict.get p store)
          else Dict.get p store)
  unfolding upsert_all rows_of mem
  get-upsert_all entries [] store p = refl
  get-upsert_all entries (q ∷ rest) store p = elim (Option-cases (Dict.get q entries)) [
    | inl e ↦ ground (arith, e, get-upsert_all entries rest store p)
    | inr (entry, e) ↦ ground (
      arith,
      e,
      get-upsert_all entries rest (Dict.put q (row_of q entry) store) p,
      Dict.get-put q p (row_of q entry) store,
    )
  ]

  upsert_all-IsDict :
      (rows : List (PhraseBaselineRow V)) (store : Dict (PhraseBaselineRow V))
      → IsDict store
      → IsDict (upsert_all works rows store)
  unfolding upsert_all
  upsert_all-IsDict [] store h = h
  upsert_all-IsDict (row ∷ rows) store h =
      upsert_all-IsDict rows _ (Dict.put-IsDict row.phrase row store h)

  -- A phrase that is not dirty is stored as it is, and one that is dirty has an entry.
  pub record IsSynced (m : BaselineManager V) (store : Dict (PhraseBaselineRow V)) : Type 0 where
    pub clean :
        (p : String) → mem p m.dirty ≡ false → Dict.get p store ≡ row_for p (Dict.get p m.entries)
    pub known : (p : String) → mem p m.dirty ≡ true → Dict.get p m.entries ≢ none
    pub keyed : IsDict store

  pub observation-IsSynced :
      (phrase : String) (delta : Counts V) (now : ℕ) (m : BaselineManager V)
      (store : Dict (PhraseBaselineRow V))
      → IsSynced m store
      → IsSynced (apply_observation phrase delta now m).1 store
  unfolding apply_observation
  observation-IsSynced phrase delta now m store l = record {
    clean = λ p h. ground (
      arith,
      h,
      l.clean p,
      mem-insert phrase p m.dirty,
      Dict.get-put phrase p (observed phrase delta now m) m.entries,
    );
    known = λ p h. ground (
      arith,
      h,
      l.known p,
      mem-insert phrase p m.dirty,
      Dict.get-put phrase p (observed phrase delta now m) m.entries,
    );
    keyed = l.keyed;
  }

  -- After a flush the store has each entry.
  pub flush-get :
      (m : BaselineManager V) (store : Dict (PhraseBaselineRow V)) (p : String)
      → IsSynced m store
      → Dict.get p (flush works m store).1 ≡ row_for p (Dict.get p m.entries)
  unfolding flush
  flush-get m store p l =
      let after = get-upsert_all m.entries m.dirty store p in
      elim (Bool-cases (mem p m.dirty)) [
        | inl e ↦ elim (Option-cases (Dict.get p m.entries)) [
          | inl n ↦ absurd (l.known p e n)
          | inr (entry, n) ↦ ground (arith, e, n, after)
        ]
        | inr e ↦ ground (arith, e, after, l.clean p e)
      ]

  pub flush-IsSynced :
      (m : BaselineManager V) (store : Dict (PhraseBaselineRow V))
      → IsSynced m store
      → let (m', store') = flush works m store in IsSynced m' store'
  unfolding flush mem
  flush-IsSynced m store l = record {
    clean = λ p h. flush-get m store p l;
    known = λ p h. absurd (ground (arith, h));
    keyed = upsert_all-IsDict (rows_of m.entries m.dirty) store l.keyed;
  }
