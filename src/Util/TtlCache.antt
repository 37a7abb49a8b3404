-- ===== src/Util/TtlCache.antt =====
-- packages/util/src/ttlCache.ts. `Date.now()` is an argument of each call, in whole milliseconds;
-- the keys are strings, as they are at every use of the class.
pub mod View
mod Examples
use trenches.Base.{
  ℕ, ◌+◌, List, [], ◌∷◌, Option, none, some, Bool, true, false, not, String, ltb, if◌then◌else◌,
}
use trenches.Base.Dict
use trenches.Base.Dict.{Dict}

pub record Entry (V : Type 0) : Type 0 where
  pub value : V
  pub expires_at : ℕ

pub record TtlCache (V : Type 0) : Type 0 where
  pub ttl_ms : ℕ
  pub store : Dict (Entry V)

module _ {V : Type 0} where
  unfoldable pub init : ℕ → TtlCache V
  init ttl_ms = record { ttl_ms = ttl_ms; store = [] }

  unfoldable pub set : String → V → ℕ → TtlCache V → TtlCache V
  set key value now c = record c {
    store = Dict.put key (record { value = value; expires_at = now + c.ttl_ms }) c.store;
  }

  -- An expired entry is deleted on the way.
  unfoldable pub get : String → ℕ → TtlCache V → Option V × TtlCache V
  get key now c = elim (Dict.get key c.store) [
    | none ↦ (none, c)
    | some entry ↦
        if ltb entry.expires_at now
        then (none, record c { store = Dict.remove key c.store })
        else (some entry.value, c)
  ]

  unfoldable pub has : String → ℕ → TtlCache V → Bool × TtlCache V
  has key now c =
      let (found, c') = get key now c in (elim found [ none ↦ false | some v ↦ true ], c')

  unfoldable pub delete : String → TtlCache V → TtlCache V
  delete key c = record c { store = Dict.remove key c.store }

  unfoldable pub clear : TtlCache V → TtlCache V
  clear c = record c { store = [] }

  -- The two effects of the loop of `entries`: what it pushes, and what it leaves in the store.
  unfoldable pub results : ℕ → Dict (Entry V) → Dict V
  results now [] = []
  results now ((key, entry) ∷ m) =
      if ltb entry.expires_at now then results now m else (key, entry.value) ∷ results now m

  unfoldable pub entries : ℕ → TtlCache V → Dict V × TtlCache V
  entries now c = (
    results now c.store,
    record c { store = Dict.keep (λ key entry. not (ltb entry.expires_at now)) c.store },
  )
