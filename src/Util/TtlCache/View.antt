-- ===== src/Util/TtlCache/View.antt =====
-- What a client of the cache sees: the live value of each key. Deleting what has expired is not seen.
use trenches.Base.{
  ℕ, ◌+◌, ◌≤◌, ◌≡◌, refl, [], ◌∷◌, Option, none, some, String, ltb, if◌then◌else◌, ite, arith,
  text_discrete, not,
}
use trenches.Base.Dict
use trenches.Base.Dict.{Dict, IsDict}
use trenches.Util.TtlCache.{Entry, TtlCache, set, get, results, entries}

module _ {V : Type 0} where
  -- The abstract cache: a partial function of the key and the time.
  abbrev pub live : Option (Entry V) → ℕ → Option V
  live none now = none
  live (some e) now = if ltb e.expires_at now then none else some e.value

  pub peek : TtlCache V → String → ℕ → Option V
  peek c key now = live (Dict.get key c.store) now

  abbrev pub IsValid : TtlCache V → Type 0
  IsValid c = IsDict c.store

  -- `get` answers with the abstract cache, and what it deletes was not to be seen: at that time and
  -- at any later one, every key reads as before.
  pub get-peek :
      (c : TtlCache V) (key : String) (now : ℕ)
      → ((get key now c).0 ≡ peek c key now)
        × ((j : String) (later : ℕ) → now ≤ later → peek (get key now c).1 j later ≡ peek c j later)
  unfolding get peek
  get-peek c key now = (ground arith, λ j later h. ground (arith, Dict.get-remove key j c.store))

  -- A value that is set is read until its time to live is over, and then no more. No other key
  -- changes.
  pub get-set :
      (c : TtlCache V) (key j : String) (v : V) (now later : ℕ)
      → (get j later (set key v now c)).0
        ≡ ite
            (text_discrete key j)
            (if ltb (now + c.ttl_ms) later then none else some v)
            (get j later c).0
  unfolding set get
  get-set c key j v now later =
      ground (arith, Dict.get-put key j (record { value = v; expires_at = now + c.ttl_ms }) c.store)

  -- `entries` lists the live value of each key.
  get-results :
      (now : ℕ) (m : Dict (Entry V)) (key : String)
      → IsDict m
      → Dict.get key (results now m) ≡ live (Dict.get key m) now
  unfolding results Dict.get
  get-results now [] key h = refl
  get-results now ((k, e) ∷ m) key h = ground (arith, get-results now m key h.1)

  pub entries-peek :
      (c : TtlCache V) (now : ℕ)
      → IsValid c
      → ((key : String) → Dict.get key (entries now c).0 ≡ peek c key now)
        × ((key : String) (later : ℕ)
            → now ≤ later
            → peek (entries now c).1 key later ≡ peek c key later)
        × IsValid (entries now c).1
  unfolding entries peek
  entries-peek c now h = (
    (λ key. get-results now c.store key h),
    (λ key later l.
        ground (arith, Dict.get-keep (λ k e. not (ltb e.expires_at now)) key c.store h)),
    Dict.keep-IsDict _ c.store h,
  )
