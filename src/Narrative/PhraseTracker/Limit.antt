-- ===== src/Narrative/PhraseTracker/Limit.antt =====
-- What `rollingPosts` counts, and by how much it is off once the hard limit has been met.
use trenches.Base.{
  ℕ, ◌+◌, ◌-◌, ◌≤◌, ◌≡◌, refl, List, [], ◌∷◌, true, leb, length, drop, length-drop, length-append,
  arith, inl, inr, Bool-cases, if◌then◌else◌,
}
use native.Mathlib.Nat.{add-zero}
use trenches.Base.Number.{Number}
use trenches.Narrative.PhraseTracker.{
  PhraseEvent, PhraseState, expire, compact, prune, enforce_limit, append, observe_state,
  empty_state, max_events_per_phrase, remove_count,
}

module _ {V : Type 0} where
  -- The events that are not yet expired.
  abbrev pub live_count : PhraseState V → ℕ
  live_count s = length s.events - s.head

  -- `rollingPosts` is the number of live events and an excess.
  pub record HasExcess (excess : ℕ) (s : PhraseState V) : Type 0 where
    pub head_le : s.head ≤ length s.events
    pub posts : s.rolling_posts ≡ live_count s + excess

enough : (n : ℕ) → leb max_events_per_phrase n ≡ true → remove_count ≤ n
enough n h = ground arith

module _ {V : Type 0} ⦃d : Number V⦄ where
  expire-HasExcess :
      (now : ℕ) (es : List (PhraseEvent V)) (s : PhraseState V) (k : ℕ)
      → length es ≡ live_count s
      → HasExcess k s
      → HasExcess k (expire now es s) × ((expire now es s).events ≡ s.events)
  unfolding expire
  expire-HasExcess now [] s k e h = (h, refl)
  expire-HasExcess now (x ∷ es) s k e h =
      let s' : PhraseState V = record s {
        rolling_engagement = d.minus s.rolling_engagement x.engagement;
        rolling_posts = s.rolling_posts - 1;
        head = s.head + 1;
      } in
      ground (arith, expire-HasExcess now es s' k)

  compact-HasExcess : (s : PhraseState V) (k : ℕ) → HasExcess k s → HasExcess k (compact s)
  unfolding compact
  compact-HasExcess s k h = ground (arith, length-drop s.head s.events)

  pub prune-HasExcess :
      (now : ℕ) (s : PhraseState V) (k : ℕ) → HasExcess k s → HasExcess k (prune now s)
  unfolding prune
  prune-HasExcess now s k h =
      compact-HasExcess _ k
        (expire-HasExcess now (drop s.head s.events) s k (length-drop s.head s.events) h).0

  -- What the limit adds to the excess: the events that it removes and that were not expired.
  abbrev pub lost : PhraseState V → ℕ
  lost s = if leb max_events_per_phrase (length s.events) then remove_count - s.head else 0

  cut-HasExcess :
      (n : ℕ) (s : PhraseState V) (k : ℕ)
      → n ≤ length s.events
      → HasExcess k s
      → HasExcess (k + (n - s.head)) (record s { events = drop n s.events; head = s.head - n })
  cut-HasExcess n s k l h = omega (arith, length-drop n s.events)

  enforce_limit-HasExcess :
      (s : PhraseState V) (k : ℕ) → HasExcess k s → HasExcess (k + lost s) (enforce_limit s)
  unfolding enforce_limit
  enforce_limit-HasExcess s k h = elim (Bool-cases (leb max_events_per_phrase (length s.events))) [
    | inl full ↦
        rw (full, enforce_limit) (cut-HasExcess remove_count s k (enough (length s.events) full) h)
    | inr room ↦ rw (room, enforce_limit, add-zero) h
  ]

  append-HasExcess :
      (e : PhraseEvent V) (s : PhraseState V) (k : ℕ) → HasExcess k s → HasExcess k (append e s)
  unfolding append
  append-HasExcess e s k h = ground (arith, length-append s.events (e ∷ []))

  -- An observation keeps the excess, and adds the live events that the hard limit removes: those
  -- are taken from the list and stay in `rollingPosts`.
  pub observe_state-HasExcess :
      (e : PhraseEvent V) (s : PhraseState V) (k : ℕ)
      → HasExcess k s
      → HasExcess (k + lost (prune e.timestamp s)) (observe_state e s)
  unfolding observe_state
  observe_state-HasExcess e s k h =
      let p = prune e.timestamp s in
      let v =
        append-HasExcess e (enforce_limit p) (k + lost p)
          (enforce_limit-HasExcess p k (prune-HasExcess e.timestamp s k h)) in
      record { head_le = v.head_le; posts = v.posts }

  -- The state after some observations, the newest first.
  unfoldable pub observed : List (PhraseEvent V) → PhraseState V
  observed [] = empty_state
  observed (e ∷ es) = observe_state e (observed es)

  -- The excess of such a state: nothing ever takes from it.
  unfoldable pub excess : List (PhraseEvent V) → ℕ
  unfolding observed
  excess [] = 0
  excess (e ∷ es) = excess es + lost (prune e.timestamp (observed es))

  -- After any observations `rollingPosts` is the number of live events and, beyond that, of all
  -- live events that the hard limit ever removed.
  pub observed-HasExcess : (es : List (PhraseEvent V)) → HasExcess (excess es) (observed es)
  unfolding observed excess empty_state
  observed-HasExcess [] = record { head_le = omega arith; posts = omega arith }
  observed-HasExcess (e ∷ es) =
      observe_state-HasExcess e (observed es) (excess es) (observed-HasExcess es)
