-- ===== src/Narrative/PhraseTracker/Window.antt =====
-- Below the hard limit the state of a phrase counts the posts of the last minute.
use trenches.Base.{
  ℕ, zero, suc, ◌+◌, ◌-◌, ◌≤◌, ◌<◌, ◌≡◌, refl, ap, ◌∙◌, sym, List, [], ◌∷◌, ◌++◌, Bool, true, leb,
  length, drop, filter, All, length-drop, arith, if◌then◌else◌,
}
use trenches.Base.Number.{Number}
use trenches.Narrative.PhraseTracker.{
  PhraseEvent, PhraseState, expire, compact, prune, enforce_limit, append, observe_state,
  empty_state, max_events_per_phrase, window_ms,
}
use trenches.Narrative.PhraseTracker.Limit.{
  HasExcess, observed, excess, observed-HasExcess, prune-HasExcess,
}

module _ {A : Type 0} where
  drop-suc : (n : ℕ) (xs : List A) (y : A) (ys : List A) → drop n xs ≡ y ∷ ys → drop (n + 1) xs ≡ ys
  drop-suc zero xs y ys e = ap (drop 1) e
  drop-suc (suc n) [] y ys e = ground arith
  drop-suc (suc n) (x ∷ xs) y ys e =
      let next : suc n + 1 ≡ suc (n + 1) = omega arith in rw next (drop-suc n xs y ys e)

  drop-append : (n : ℕ) (xs ys : List A) → n ≤ length xs → drop n (xs ++ ys) ≡ drop n xs ++ ys
  drop-append zero xs ys h = refl
  drop-append (suc n) [] ys h = absurd (omega arith)
  drop-append (suc n) (x ∷ xs) ys h = drop-append n xs ys (omega arith)

module _ {V : Type 0} where
  -- Within the last minute.
  abbrev pub is_recent : ℕ → PhraseEvent V → Bool
  is_recent now e = leb now (e.timestamp + window_ms)

  recent : ℕ → List (PhraseEvent V) → List (PhraseEvent V)
  recent now [] = []
  recent now (e ∷ es) = if is_recent now e then e ∷ es else recent now es

  -- Times do not fall along the list, from `low` on.
  abbrev Ascending : ℕ → List (PhraseEvent V) → Type 0
  Ascending low [] = Unit
  Ascending low (e ∷ es) = (low ≤ e.timestamp) × Ascending e.timestamp es

  filter_all :
      (old now low : ℕ) (es : List (PhraseEvent V))
      → Ascending low es
      → old ≤ now
      → now ≤ low + window_ms
      → filter (is_recent old) es ≡ filter (is_recent now) es
  filter_all old now low [] a h l = refl
  filter_all old now low (e ∷ es) a h l = ground (arith, filter_all old now e.timestamp es a.1)

  -- On events in the order of time, to stop at the first recent one loses nothing.
  recent-filter :
      (old now low : ℕ) (es : List (PhraseEvent V))
      → Ascending low es
      → old ≤ now
      → recent now (filter (is_recent old) es) ≡ filter (is_recent now) es
  unfolding recent
  recent-filter old now low [] a h = refl
  recent-filter old now low (e ∷ es) a h =
      ground
        (arith, recent-filter old now e.timestamp es a.1, filter_all old now e.timestamp es a.1)

  -- The history, the oldest first.
  pub chron : List (PhraseEvent V) → List (PhraseEvent V)
  chron [] = []
  chron (e ∷ es) = chron es ++ (e ∷ [])

  abbrev pub newest : List (PhraseEvent V) → ℕ
  newest [] = 0
  newest (e ∷ es) = e.timestamp

  abbrev pub IsTimely : List (PhraseEvent V) → Type 0
  IsTimely [] = Unit
  IsTimely (e ∷ es) = (newest es ≤ e.timestamp) × IsTimely es

  snoc-Ascending :
      (low top : ℕ) (es : List (PhraseEvent V)) (e : PhraseEvent V)
      → Ascending low es
      → All (λ x. x.timestamp ≤ top) es
      → top ≤ e.timestamp
      → low ≤ e.timestamp
      → Ascending low (es ++ (e ∷ [])) × All (λ x. x.timestamp ≤ e.timestamp) (es ++ (e ∷ []))
  snoc-Ascending low top [] e a b h l = omega arith
  snoc-Ascending low top (x ∷ es) e a b h l =
      ground (arith, snoc-Ascending x.timestamp top es e a.1 b.1 h)

  chron-Ascending :
      (es : List (PhraseEvent V))
      → IsTimely es
      → Ascending 0 (chron es) × All (λ x. x.timestamp ≤ newest es) (chron es)
  unfolding chron
  chron-Ascending [] h = (tt, tt)
  chron-Ascending (e ∷ es) h =
      let (a, b) = chron-Ascending es h.1 in
      snoc-Ascending 0 (newest es) (chron es) e a b h.0 (omega arith)

  filter-snoc :
      (p : PhraseEvent V → Bool) (es : List (PhraseEvent V)) (e : PhraseEvent V)
      → p e ≡ true
      → filter p (es ++ (e ∷ [])) ≡ filter p es ++ (e ∷ [])
  filter-snoc p [] e h = ground arith
  filter-snoc p (x ∷ es) e h = ground (arith, filter-snoc p es e h)

  abbrev live : PhraseState V → List (PhraseEvent V)
  live s = drop s.head s.events

module _ {V : Type 0} ⦃d : Number V⦄ where
  expire-live :
      (now : ℕ) (es : List (PhraseEvent V)) (s : PhraseState V)
      → live s ≡ es
      → live (expire now es s) ≡ recent now es
  unfolding expire recent
  expire-live now [] s e = e
  expire-live now (x ∷ es) s e =
      let s' : PhraseState V = record s {
        rolling_engagement = d.minus s.rolling_engagement x.engagement;
        rolling_posts = s.rolling_posts - 1;
        head = s.head + 1;
      } in
      ground (arith, expire-live now es s' (drop-suc s.head s.events x es e))

  compact-live : (s : PhraseState V) → live (compact s) ≡ live s
  unfolding compact
  compact-live s = ground arith

  prune-live : (now : ℕ) (s : PhraseState V) → live (prune now s) ≡ recent now (live s)
  unfolding prune
  prune-live now s = compact-live (expire now (live s) s) ∙ expire-live now (live s) s refl

  -- Every observation found room below the hard limit.
  unfoldable pub IsRoomy : List (PhraseEvent V) → Type 0
  IsRoomy [] = Unit
  IsRoomy (e ∷ es) =
      (length (prune e.timestamp (observed es)).events < max_events_per_phrase) × IsRoomy es

  roomy-excess : (es : List (PhraseEvent V)) → IsRoomy es → excess es ≡ 0
  unfolding excess IsRoomy
  roomy-excess [] h = refl
  roomy-excess (e ∷ es) h = ground (arith, roomy-excess es h.1)

  observe_state-live :
      (e : PhraseEvent V) (s : PhraseState V) {k : ℕ}
      → HasExcess k s
      → length (prune e.timestamp s).events < max_events_per_phrase
      → live (observe_state e s) ≡ recent e.timestamp (live s) ++ (e ∷ [])
  unfolding observe_state enforce_limit append
  observe_state-live e s {k} h r =
      let p = prune e.timestamp s in
      ground (
        arith,
        prune-live e.timestamp s,
        drop-append p.head p.events (e ∷ []),
        prune-HasExcess e.timestamp s k h,
      )

  observed-live :
      (es : List (PhraseEvent V))
      → IsTimely es
      → IsRoomy es
      → live (observed es) ≡ filter (is_recent (newest es)) (chron es)
  unfolding observed chron IsRoomy empty_state
  observed-live [] t r = refl
  observed-live (e ∷ es) t r =
      observe_state-live e (observed es) (observed-HasExcess es) r.0
      ∙ ap (λ l. recent e.timestamp l ++ (e ∷ [])) (observed-live es t.1 r.1)
      ∙ ap (λ l. l ++ (e ∷ []))
          (recent-filter (newest es) e.timestamp 0 (chron es) (chron-Ascending es t.1).0 t.0)
      ∙ sym (filter-snoc (is_recent e.timestamp) (chron es) e (ground arith))

  -- On the state of one phrase, whose observations come in the order of time and find room below the
  -- hard limit, the rolling count is the number of observations of the last minute.
  pub rolling_posts-observed :
      (e : PhraseEvent V) (es : List (PhraseEvent V))
      → IsTimely (e ∷ es)
      → IsRoomy (e ∷ es)
      → (observed (e ∷ es)).rolling_posts ≡ length (filter (is_recent e.timestamp) (chron (e ∷ es)))
  unfolding IsRoomy
  rolling_posts-observed e es t r =
      let s = observed (e ∷ es) in
      omega (
        arith,
        (observed-HasExcess (e ∷ es)).posts,
        roomy-excess (e ∷ es) r,
        length-drop s.head s.events,
        ap length (observed-live (e ∷ es) t r),
      )
