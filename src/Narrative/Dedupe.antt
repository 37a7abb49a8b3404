-- ===== src/Narrative/Dedupe.antt =====
-- services/narrative-miner/src/dedupe.ts. Identifiers are strings, times whole milliseconds.
pub mod Window
mod Examples
use trenches.Base.{
  ℕ, ◌+◌, [], Option, none, some, Bool, true, false, not, String, ltb, ◌==◌, length, if◌then◌else◌,
}
use trenches.Base.Dict
use trenches.Base.Dict.{Dict}

pub record DedupeCache : Type 0 where
  pub ttl_ms : ℕ
  pub entries : Dict ℕ

-- The constructor; `none` is the exception.
unfoldable pub init : ℕ → Option DedupeCache
init ttl_ms = if ttl_ms == 0 then none else some (record { ttl_ms = ttl_ms; entries = [] })

-- `timestamp < now - ttlMs` is written without the difference, which may be negative.
unfoldable pub prune : ℕ → DedupeCache → DedupeCache
prune now c = record c {
  entries = Dict.keep (λ key timestamp. not (ltb (timestamp + c.ttl_ms) now)) c.entries;
}

-- `now - last < ttlMs`, likewise.
unfoldable pub within : ℕ → ℕ → Option ℕ → Bool
within ttl_ms now none = false
within ttl_ms now (some last) = ltb now (last + ttl_ms)

unfoldable pub has : String → ℕ → DedupeCache → Bool × DedupeCache
has id now c =
    let c' = prune now c in
    let last = Dict.get id c'.entries in
    (within c.ttl_ms now last, record c' { entries = Dict.put id now c'.entries })

unfoldable pub size : Option ℕ → DedupeCache → ℕ × DedupeCache
size none c = (length c.entries, c)
size (some now) c = let c' = prune now c in (length c'.entries, c')

unfoldable pub clear : DedupeCache → DedupeCache
clear c = record c { entries = [] }
