-- ===== src/Narrative/Matcher/Topics/Cooldown.antt =====
-- The cooldown of a candidate that was matched.
use trenches.Base.{
  ℕ, ◌+◌, ◌*◌, ◌<◌, ◌≡◌, ◌≢◌, List, Option, none, some, String, ◌==◌, arith, Option-cases, inl, inr,
  subst, if_cases, length, if◌then◌else◌, [], ◌∷◌, ◌>>=◌, All, ap, ◌∙◌, text_discrete,
}
use trenches.Base.Dict
use trenches.Base.Dict.{Dict}
use trenches.Base.Number.{Number}
use trenches.Narrative.Matcher.Automaton.{Node, search}
use trenches.Narrative.Matcher.Topics.{
  MatchResult, Candidate, ClusterDescriptor, Settings, Matcher, set_cluster, remove_cluster, cools,
  cooling, settle, matched, match_active, match_candidate, get_automaton,
}

module _ {V : Type 0} ⦃d : Number V⦄ (cfg : Settings V) where
  -- A result comes with the time of the match.
  abbrev IsNoted : String → ℕ → Option (Option (MatchResult V) × Matcher V) → Type 0
  IsNoted mint now none = Unit
  IsNoted mint now (some (none, m)) = Unit
  IsNoted mint now (some (some r, m)) = Dict.get mint m.cooldown ≡ some now

  settle-IsNoted :
      (mint : String) (now : ℕ) (best : Option (MatchResult V)) (m : Matcher V)
      → IsNoted mint now (some (best, settle cfg mint now best m))
  settle-IsNoted mint now none m = tt
  settle-IsNoted mint now (some r) m = Dict.get-put_self mint now m.cooldown

  match_active-IsNoted :
      (fuel now : ℕ) (c : Candidate) (windows : List String) (m : Matcher V)
      → IsNoted c.mint now (match_active cfg fuel c windows now m)
  unfolding match_active
  match_active-IsNoted fuel now c windows m = elim (Option-cases (get_automaton cfg fuel m)) [
    | inl e ↦ rw (match_active, e) tt
    | inr ((nodes, m'), e) ↦
        elim (Option-cases (
          search fuel
            (cfg.codes (cfg.search_text (cfg.to_lower_case c.name) (cfg.to_lower_case c.symbol)))
            nodes)) [
              | inl found ↦ rw (match_active, e, found) tt
              | inr (tries, found) ↦
                  rw (match_active, e, found)
                    (settle-IsNoted c.mint now (matched cfg m c windows tries) m')
            ]
  ]

  match_candidate-IsNoted :
      (fuel now : ℕ) (c : Candidate) (windows : List String) (m : Matcher V)
      → IsNoted c.mint now (match_candidate cfg fuel c windows now m)
  unfolding match_candidate
  match_candidate-IsNoted fuel now c windows m =
      let rest =
        if length windows == 0 then some (none, m) else match_active cfg fuel c windows now m in
      if_cases (IsNoted c.mint now) (cooling cfg now c m) (some (none, m)) rest (λ h. tt)
        (λ h.
          if_cases (IsNoted c.mint now) (length windows == 0) (some (none, m))
            (match_active cfg fuel c windows now m) (λ k. tt)
            (λ k. match_active-IsNoted fuel now c windows m))

  -- What may happen to a matcher between two matches.
  pub data Call : Type 0 where
    matches : ℕ → ℕ → Candidate → List String → Call
    sets_cluster : ClusterDescriptor V → Call
    removes_cluster : String → Call

  abbrev left : Option (Option (MatchResult V) × Matcher V) → Option (Matcher V)
  left none = none
  left (some (r, m)) = some m

  unfoldable pub call : Call → Matcher V → Option (Matcher V)
  call (matches fuel now c windows) m = left (match_candidate cfg fuel c windows now m)
  call (sets_cluster c) m = some (set_cluster cfg c m)
  call (removes_cluster topic) m = some (remove_cluster cfg topic m)

  -- The oldest call first; `none` is a match that did not come to an end.
  unfoldable pub run : List Call → Matcher V → Option (Matcher V)
  run [] m = some m
  run (x ∷ xs) m = call x m >>= λ next. run xs next

  -- A match comes before the time given; it need not be the next one in time.
  abbrev pub IsBefore : ℕ → Call → Type 0
  IsBefore limit (matches fuel now c windows) = now < limit
  IsBefore limit (sets_cluster c) = Unit
  IsBefore limit (removes_cluster topic) = Unit

  -- The mint was matched at that time.
  abbrev Noted : String → ℕ → Matcher V → Type 0
  Noted mint now m = Dict.get mint m.cooldown ≡ some now

  abbrev Leaves : String → ℕ → Option (Matcher V) → Type 0
  Leaves mint now none = Unit
  Leaves mint now (some m) = Noted mint now m

  cooled :
      (mint : String) (now fuel later : ℕ) (c : Candidate) (windows : List String) (m : Matcher V)
      → Noted mint now m
      → now ≢ 0
      → c.mint ≡ mint
      → 0 < cfg.cool_down_sec
      → later < now + cfg.cool_down_sec * 1000
      → match_candidate cfg fuel c windows later m ≡ some (none, m)
  unfolding match_candidate cools
  cooled mint now fuel later c windows m noted nonzero same cool soon =
      ground (arith, noted, nonzero, same, cool, soon)

  settle-Leaves :
      (mint : String) (now : ℕ) (other : String) (later : ℕ) (best : Option (MatchResult V))
      (m : Matcher V)
      → other ≢ mint
      → Noted mint now m
      → Noted mint now (settle cfg other later best m)
  settle-Leaves mint now other later none m ne noted = noted
  settle-Leaves mint now other later (some r) m ne noted =
      Dict.get-put_ne other mint later m.cooldown ne ∙ noted

  get_automaton-cooldown :
      (fuel : ℕ) (m m' : Matcher V) (nodes : List (Node V))
      → get_automaton cfg fuel m ≡ some (nodes, m')
      → m'.cooldown ≡ m.cooldown
  unfolding get_automaton
  get_automaton-cooldown fuel m m' nodes e = ground (arith, e)

  match_active-Leaves :
      (mint : String) (now fuel later : ℕ) (c : Candidate) (windows : List String) (m : Matcher V)
      → c.mint ≢ mint
      → Noted mint now m
      → Leaves mint now (left (match_active cfg fuel c windows later m))
  unfolding match_active
  match_active-Leaves mint now fuel later c windows m ne noted =
      elim (Option-cases (get_automaton cfg fuel m)) [
        | inl e ↦ rw (match_active, e) tt
        | inr ((nodes, m'), e) ↦
            elim (Option-cases (
              search fuel
                (cfg.codes
                  (cfg.search_text (cfg.to_lower_case c.name) (cfg.to_lower_case c.symbol)))
                nodes)) [
                  | inl found ↦ rw (match_active, e, found) tt
                  | inr (tries, found) ↦
                      rw (match_active, e, found)
                        (settle-Leaves mint now c.mint later (matched cfg m c windows tries) m' ne
                          (ap (Dict.get mint) (get_automaton-cooldown fuel m m' nodes e) ∙ noted))
                ]
      ]

  match_candidate-Leaves :
      (mint : String) (now fuel later : ℕ) (c : Candidate) (windows : List String) (m : Matcher V)
      → c.mint ≢ mint
      → Noted mint now m
      → Leaves mint now (left (match_candidate cfg fuel c windows later m))
  unfolding match_candidate
  match_candidate-Leaves mint now fuel later c windows m ne noted =
      let P : Option (Option (MatchResult V) × Matcher V) → Type 0 =
        λ r. Leaves mint now (left r) in
      let active = match_active cfg fuel c windows later m in
      let rest = if length windows == 0 then some (none, m) else active in
      if_cases P (cooling cfg later c m) (some (none, m)) rest (λ h. noted)
        (λ h.
          if_cases P (length windows == 0) (some (none, m)) active (λ k. noted)
            (λ k. match_active-Leaves mint now fuel later c windows m ne noted))

  call-Leaves :
      (mint : String) (now : ℕ) (x : Call) (m : Matcher V)
      → Noted mint now m
      → now ≢ 0
      → 0 < cfg.cool_down_sec
      → IsBefore (now + cfg.cool_down_sec * 1000) x
      → Leaves mint now (call x m)
  unfolding call set_cluster remove_cluster
  call-Leaves mint now (matches fuel later c windows) m noted nonzero cool soon =
      elim (text_discrete c.mint mint) [
        | yes same ↦ rw (cooled mint now fuel later c windows m noted nonzero same cool soon) noted
        | no ne ↦ match_candidate-Leaves mint now fuel later c windows m ne noted
      ]
  call-Leaves mint now (sets_cluster c) m noted nonzero cool soon = noted
  call-Leaves mint now (removes_cluster topic) m noted nonzero cool soon = ground (arith, noted)

  run-Leaves :
      (mint : String) (now : ℕ) (xs : List Call) (m m' : Matcher V)
      → Noted mint now m
      → now ≢ 0
      → 0 < cfg.cool_down_sec
      → All (IsBefore (now + cfg.cool_down_sec * 1000)) xs
      → run xs m ≡ some m'
      → Noted mint now m'
  unfolding run
  run-Leaves mint now [] m m' noted nonzero cool soon e = ground (arith, noted, e)
  run-Leaves mint now (x ∷ xs) m m' noted nonzero cool soon e = elim (Option-cases (call x m)) [
    | inl stuck ↦ absurd (ground (arith, stuck, e))
    | inr (next, made) ↦
        run-Leaves mint now xs next m'
          (subst (Leaves mint now) made (call-Leaves mint now x m noted nonzero cool soon.0))
          nonzero cool soon.1 (ground (arith, made, e))
  ]

  -- After a match, whatever clusters are then set or removed and whatever other candidates are
  -- matched, as long as all this comes to an end before the cooldown is over, no candidate with the
  -- same mint is matched before then, and the attempt leaves the matcher as it is; the time of the
  -- match is not 0.
  pub match_candidate-cools :
      (fuel fuel' now later : ℕ) (c c' : Candidate) (windows windows' : List String)
      (m m1 m2 : Matcher V) (r : MatchResult V) (xs : List Call)
      → match_candidate cfg fuel c windows now m ≡ some (some r, m1)
      → run xs m1 ≡ some m2
      → All (IsBefore (now + cfg.cool_down_sec * 1000)) xs
      → now ≢ 0
      → c'.mint ≡ c.mint
      → 0 < cfg.cool_down_sec
      → later < now + cfg.cool_down_sec * 1000
      → match_candidate cfg fuel' c' windows' later m2 ≡ some (none, m2)
  match_candidate-cools fuel fuel' now later c c' windows windows' m m1 m2 r xs e ran before nonzero
        same cool soon =
      let noted : Noted c.mint now m1 =
        subst (IsNoted c.mint now) e (match_candidate-IsNoted fuel now c windows m) in
      cooled c.mint now fuel' later c' windows' m2
        (run-Leaves c.mint now xs m1 m2 noted nonzero cool before ran) nonzero same cool soon
