-- ===== src/Narrative/Baseline.antt =====
-- services/narrative-miner/src/baseline.ts (`BaselineManager`). The clock is an argument, the half-life a
-- number of milliseconds, and a time keeps its milliseconds in the store. The timer, which calls
-- `flush`, and the chain of its promises, which makes one flush follow the other, are left out.
pub mod Stored
pub mod Restart
mod Examples
use trenches.Base.{
  ℕ, ◌-◌, List, [], ◌∷◌, Option, none, some, Bool, true, false, ◌||◌, String, ◌==◌, ◌or_else◌,
  if◌then◌else◌,
}
use trenches.Base.Dict
use trenches.Base.Dict.{Dict}
use trenches.Base.Sets.{insert}
use trenches.Base.Number.{Number, whole}

pub record Counts (V : Type 0) : Type 0 where
  pub count : V
  pub engagement : V
  pub authors : V

pub record BaselineEntry (V : Type 0) : Type 0 where
  pub counts : Counts V
  pub updated_at_ms : ℕ

-- A stored row without a time, or with one that cannot be read, has none.
pub record PhraseBaselineRow (V : Type 0) : Type 0 where
  pub phrase : String
  pub counts : Counts V
  pub updated_at : Option ℕ

pub record BaselineManager (V : Type 0) : Type 0 where
  pub half_life_ms : V
  pub entries : Dict (BaselineEntry V)
  pub dirty : List String

module _ {V : Type 0} ⦃d : Number V⦄ where
  open d use {ratio, plus, times, over, eq, pow}

  abbrev pub no_counts : Counts V
  no_counts = record { count = whole 0; engagement = whole 0; authors = whole 0 }

  unfoldable pub apply_decay : V → BaselineEntry V → ℕ → Counts V
  apply_decay half_life_ms entry now =
      let elapsed = now - entry.updated_at_ms in
      let decay = pow (ratio 1 2) (over (whole elapsed) half_life_ms) in
      if elapsed == 0 || eq entry.counts.count (whole 0) then entry.counts else record {
        count = times entry.counts.count decay;
        engagement = times entry.counts.engagement decay;
        authors = times entry.counts.authors decay;
      }

  unfoldable pub snapshot : String → ℕ → BaselineManager V → Counts V
  snapshot phrase now m = elim (Dict.get phrase m.entries) [
    | none ↦ no_counts
    | some entry ↦ apply_decay m.half_life_ms entry now
  ]

  abbrev pub added : Counts V → Counts V → Counts V
  added a b = record {
    count = plus a.count b.count;
    engagement = plus a.engagement b.engagement;
    authors = plus a.authors b.authors;
  }

  -- The entry after an observation.
  unfoldable pub observed : String → Counts V → ℕ → BaselineManager V → BaselineEntry V
  observed phrase delta now m =
      let entry =
        Dict.get phrase m.entries or_else record { counts = no_counts; updated_at_ms = now } in
      record { counts = added (apply_decay m.half_life_ms entry now) delta; updated_at_ms = now }

  unfoldable pub apply_observation :
      String → Counts V → ℕ → BaselineManager V → Counts V × BaselineManager V
  apply_observation phrase delta now m =
      let entry = observed phrase delta now m in
      (
        entry.counts,
        record m { entries = Dict.put phrase entry m.entries; dirty = insert phrase m.dirty },
      )

  -- The rows of the phrases that have an entry.
  unfoldable pub rows_of : Dict (BaselineEntry V) → List String → List (PhraseBaselineRow V)
  rows_of entries [] = []
  rows_of entries (phrase ∷ rest) = elim (Dict.get phrase entries) [
    | none ↦ rows_of entries rest
    | some entry ↦
        record { phrase = phrase; counts = entry.counts; updated_at = some entry.updated_at_ms }
        ∷ rows_of entries rest
  ]

  -- The store, as its calls of `upsertPhraseBaseline` leave it; `fails` says which of them throw.
  unfoldable pub upsert_all :
      (String → Bool)
      → List (PhraseBaselineRow V)
      → Dict (PhraseBaselineRow V)
      → Dict (PhraseBaselineRow V)
  upsert_all fails [] store = store
  upsert_all fails (row ∷ rows) store =
      upsert_all fails rows (if fails row.phrase then store else Dict.put row.phrase row store)

  unfoldable pub flush :
      (String → Bool)
      → BaselineManager V
      → Dict (PhraseBaselineRow V)
      → BaselineManager V × Dict (PhraseBaselineRow V)
  flush fails m store =
      (record m { dirty = [] }, upsert_all fails (rows_of m.entries m.dirty) store)

  abbrev pub loaded : ℕ → PhraseBaselineRow V → BaselineEntry V
  loaded now row = record { counts = row.counts; updated_at_ms = row.updated_at or_else now }

  -- `initialize`, given the rows that `loadPhraseBaseline` returns.
  unfoldable pub initialize :
      ℕ → List (String × PhraseBaselineRow V) → BaselineManager V → BaselineManager V
  initialize now [] m = m
  initialize now ((phrase, row) ∷ rows) m =
      initialize now rows (record m { entries = Dict.put phrase (loaded now row) m.entries })
