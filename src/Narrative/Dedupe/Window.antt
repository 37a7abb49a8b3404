-- ===== src/Narrative/Dedupe/Window.antt =====
-- The cache against the full history of its calls: what it forgets makes no difference.
use trenches.Base.{
  ℕ, ◌+◌, ◌≤◌, ◌≡◌, refl, List, [], ◌∷◌, Option, none, some, Bool, false, String, ite, arith, ltb,
  not, text_discrete, if◌then◌else◌,
}
use trenches.Base.Dict
use trenches.Base.Dict.{Dict, IsDict}
use trenches.Narrative.Dedupe.{DedupeCache, prune, within, has}

-- A call `has(id, now)`. The newest call stands first.
pub record Call : Type 0 where
  pub id : String
  pub now : ℕ

pub last_seen : String → List Call → Option ℕ
last_seen id [] = none
last_seen id (c ∷ cs) = ite (text_discrete c.id id) (some c.now) (last_seen id cs)

-- The specification: the identifier was seen, and the last time was less than the ttl ago.
pub seen_recently : ℕ → List Call → Call → Bool
unfolding last_seen
seen_recently ttl_ms history c = elim (last_seen c.id history) [
  | none ↦ false
  | some last ↦ ltb c.now (last + ttl_ms)
]

abbrev pub newest : List Call → ℕ
newest [] = 0
newest (c ∷ cs) = c.now

-- The clock does not run backwards.
abbrev pub IsTimely : List Call → Type 0
IsTimely [] = Unit
IsTimely (c ∷ cs) = (newest cs ≤ c.now) × IsTimely cs

unfoldable pub run : DedupeCache → List Call → DedupeCache
run c [] = c
run c (call ∷ calls) = (has call.id call.now (run c calls)).1

abbrev pub fresh : ℕ → DedupeCache
fresh ttl_ms = record { ttl_ms = ttl_ms; entries = [] }

-- The last sighting, unless it was out of the window at the time of the last call.
remembered : ℕ → String → List Call → Option ℕ
unfolding last_seen
remembered ttl_ms id history = elim (last_seen id history) [
  | none ↦ none
  | some t ↦ if ltb (t + ttl_ms) (newest history) then none else some t
]

run-ttl_ms : (ttl_ms : ℕ) (history : List Call) → (run (fresh ttl_ms) history).ttl_ms ≡ ttl_ms
unfolding run has prune
run-ttl_ms ttl_ms [] = refl
run-ttl_ms ttl_ms (c ∷ cs) = run-ttl_ms ttl_ms cs

run-IsDict : (ttl_ms : ℕ) (history : List Call) → IsDict (run (fresh ttl_ms) history).entries
unfolding run has prune
run-IsDict ttl_ms [] = tt
run-IsDict ttl_ms (c ∷ cs) =
    Dict.put-IsDict c.id c.now _ (Dict.keep-IsDict _ _ (run-IsDict ttl_ms cs))

run-remembered :
    (ttl_ms : ℕ) (history : List Call) (id : String)
    → IsTimely history
    → Dict.get id (run (fresh ttl_ms) history).entries ≡ remembered ttl_ms id history
unfolding run has prune remembered Dict.get
run-remembered ttl_ms [] id h = refl
run-remembered ttl_ms (c ∷ cs) id h =
    let old = run (fresh ttl_ms) cs in
    ground (
      arith,
      run-ttl_ms ttl_ms cs,
      Dict.get-put c.id id c.now (Dict.keep (λ k t. not (ltb (t + old.ttl_ms) c.now)) old.entries),
      Dict.get-keep (λ k t. not (ltb (t + old.ttl_ms) c.now)) id old.entries (run-IsDict ttl_ms cs),
      run-remembered ttl_ms cs id h.1,
    )

-- On any history in the order of time, `has` answers whether the identifier was seen less than the
-- ttl ago, although the cache forgets what is older.
pub has-seen_recently :
    (ttl_ms : ℕ) (history : List Call) (c : Call)
    → IsTimely (c ∷ history)
    → (has c.id c.now (run (fresh ttl_ms) history)).0 ≡ seen_recently ttl_ms history c
unfolding has prune within seen_recently remembered
has-seen_recently ttl_ms history c h =
    let old = run (fresh ttl_ms) history in
    ground (
      arith,
      run-ttl_ms ttl_ms history,
      Dict.get-keep (λ k t. not (ltb (t + old.ttl_ms) c.now)) c.id old.entries
          (run-IsDict ttl_ms history),
      run-remembered ttl_ms history c.id h.1,
    )
