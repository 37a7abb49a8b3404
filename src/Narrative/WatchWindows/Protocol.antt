-- ===== src/Narrative/WatchWindows/Protocol.antt =====
-- The events of one topic, in their order.
use trenches.Base.{
  ℕ, ◌≡◌, refl, ◌∙◌, List, [], ◌∷◌, ◌++◌, Option, none, some, Bool, true, false, not, String, leb,
  ite, arith, text_discrete, Option-cases, inl, inr, if◌then◌else◌,
}
use trenches.Base.Dict
use trenches.Base.Dict.{Dict, IsDict}
use trenches.Base.Number.{Number}
use trenches.Narrative.WatchWindows.{
  Dates, WatchWindowState, WatchWindowManager, WatchWindowEvent, opened, refreshed, closed, Update,
  prune, ingest, created, refreshed_state, closed_from,
}

-- A call with its time.
pub data Call (V : Type 0) : Type 0 where
  ingests : Update V → ℕ → Call V
  prunes : ℕ → Call V

module _ {V : Type 0} where
  -- What a subscriber expects of a topic's next event, given whether its window is open: `none` is
  -- an event out of order.
  unfoldable pub accept_one : String → WatchWindowEvent V → Bool → Option Bool
  accept_one topic_id (opened r) is_open =
      ite (text_discrete r.topic_id topic_id) (if is_open then none else some true) (some is_open)
  accept_one topic_id (refreshed r) is_open =
      ite (text_discrete r.topic_id topic_id) (if is_open then some true else none) (some is_open)
  accept_one topic_id (closed r) is_open =
      ite (text_discrete r.topic_id topic_id) (if is_open then some false else none) (some is_open)

  unfoldable pub accept : String → List (WatchWindowEvent V) → Bool → Option Bool
  unfolding accept_one
  accept topic_id [] is_open = some is_open
  accept topic_id (e ∷ es) is_open = elim (accept_one topic_id e is_open) [
    | none ↦ none
    | some next ↦ accept topic_id es next
  ]

  abbrev pub is_held : Option (WatchWindowState V) → Bool
  is_held none = false
  is_held (some s) = true

  -- Whether the manager holds a window for the topic.
  pub holds : String → WatchWindowManager V → Bool
  holds topic_id c = is_held (Dict.get topic_id c.windows)

  -- The keys are distinct, and each is the topic of its window.
  abbrev pub IsKeyed : Dict (WatchWindowState V) → Type 0
  IsKeyed [] = Unit
  IsKeyed ((k, s) ∷ m) = (s.topic_id ≡ k) × (Dict.get k m ≡ none) × IsKeyed m

  put-IsKeyed :
      (k : String) (s : WatchWindowState V) (m : Dict (WatchWindowState V))
      → s.topic_id ≡ k
      → IsKeyed m
      → IsKeyed (Dict.put k s m)
  unfolding Dict.put Dict.get
  put-IsKeyed k s [] e h = (e, refl, tt)
  put-IsKeyed k s ((i, w) ∷ m) e h = ground (arith, put-IsKeyed k s m e, Dict.get-put k i s m)

  get-IsKeyed :
      (k : String) (s : WatchWindowState V) (m : Dict (WatchWindowState V))
      → IsKeyed m
      → Dict.get k m ≡ some s
      → s.topic_id ≡ k
  unfolding Dict.get
  get-IsKeyed k s [] h e = ground arith
  get-IsKeyed k s ((i, w) ∷ m) h e = ground (arith, get-IsKeyed k s m)

  keep-get-none :
      (p : String → WatchWindowState V → Bool) (k : String) (m : Dict (WatchWindowState V))
      → Dict.get k m ≡ none
      → Dict.get k (Dict.keep p m) ≡ none
  unfolding Dict.get Dict.keep
  keep-get-none p k [] h = refl
  keep-get-none p k ((i, w) ∷ m) h = ground (arith, keep-get-none p k m)

  keep-IsKeyed :
      (p : String → WatchWindowState V → Bool) (m : Dict (WatchWindowState V))
      → IsKeyed m
      → IsKeyed (Dict.keep p m)
  unfolding Dict.keep
  keep-IsKeyed p [] h = tt
  keep-IsKeyed p ((i, w) ∷ m) h = ground (arith, keep-IsKeyed p m, keep-get-none p i m)

module _ {V : Type 0} (dates : Dates) where
  accept-closed_absent :
      (topic_id : String) (now : ℕ) (m : Dict (WatchWindowState V)) (b : Bool)
      → IsKeyed m
      → Dict.get topic_id m ≡ none
      → accept topic_id (closed_from dates now m) b ≡ some b
  unfolding accept closed_from Dict.get
  accept-closed_absent topic_id now [] b h e = refl
  accept-closed_absent topic_id now ((k, s) ∷ m) b h e =
      ground (arith, accept-closed_absent topic_id now m b)

  accept-closed_from :
      (topic_id : String) (now : ℕ) (m : Dict (WatchWindowState V))
      → IsKeyed m
      → accept topic_id (closed_from dates now m) (is_held (Dict.get topic_id m))
        ≡ some (is_held (Dict.get topic_id (Dict.keep (λ k s. not (leb s.expires_at now)) m)))
  unfolding accept closed_from Dict.get Dict.keep
  accept-closed_from topic_id now [] h = refl
  accept-closed_from topic_id now ((k, s) ∷ m) h = ground (
    arith,
    accept-closed_from topic_id now m,
    accept-closed_absent topic_id now m false,
    accept-closed_absent topic_id now m true,
    keep-get-none (λ k s. not (leb s.expires_at now)) topic_id m,
  )

  module _ ⦃d : Number V⦄ where
    pub step : Call V → WatchWindowManager V → WatchWindowManager V × List (WatchWindowEvent V)
    step (ingests u now) c = ingest dates u now c
    step (prunes now) c = prune dates now c

    pub run :
        List (Call V) → WatchWindowManager V → WatchWindowManager V × List (WatchWindowEvent V)
    unfolding step
    run [] c = (c, [])
    run (call ∷ calls) c =
        let (c', first) = step call c in let (last, rest) = run calls c' in (last, first ++ rest)

    ingest-IsKeyed :
        (u : Update V) (now : ℕ) (c : WatchWindowManager V)
        → IsKeyed c.windows
        → IsKeyed (ingest dates u now c).0.windows
    unfolding ingest
    ingest-IsKeyed u now c h = elim (Option-cases (Dict.get u.topic_id c.windows)) [
      | inl e ↦ ground (arith, put-IsKeyed u.topic_id (created u now) c.windows refl h)
      | inr (s, e) ↦
          let own = get-IsKeyed u.topic_id s c.windows h e in
          ground (
            arith,
            put-IsKeyed u.topic_id (refreshed_state u now s) c.windows own h,
            put-IsKeyed u.topic_id (record s { sss = u.sss; novelty = u.novelty }) c.windows own h,
          )
    ]

    accept-ingest :
        (topic_id : String) (u : Update V) (now : ℕ) (c : WatchWindowManager V)
        → IsKeyed c.windows
        → accept topic_id (ingest dates u now c).1 (holds topic_id c)
          ≡ some (holds topic_id (ingest dates u now c).0)
    unfolding ingest accept holds
    accept-ingest topic_id u now c h =
        let put = λ (s : WatchWindowState V). Dict.get-put u.topic_id topic_id s c.windows in
        elim (Option-cases (Dict.get u.topic_id c.windows)) [
          | inl e ↦ ground (arith, put (created u now))
          | inr (s, e) ↦ ground (
            arith,
            get-IsKeyed u.topic_id s c.windows h e,
            put (refreshed_state u now s),
            put (record s { sss = u.sss; novelty = u.novelty }),
          )
        ]

    accept-step :
        (topic_id : String) (call : Call V) (c : WatchWindowManager V)
        → IsKeyed c.windows
        → IsKeyed (step call c).0.windows
          × (accept topic_id (step call c).1 (holds topic_id c)
              ≡ some (holds topic_id (step call c).0))
    unfolding step prune holds
    accept-step topic_id (ingests u now) c h =
        (ingest-IsKeyed u now c h, accept-ingest topic_id u now c h)
    accept-step topic_id (prunes now) c h =
        (keep-IsKeyed _ c.windows h, accept-closed_from topic_id now c.windows h)

    accept-append :
        (topic_id : String) (xs ys : List (WatchWindowEvent V)) (b b' : Bool)
        → accept topic_id xs b ≡ some b'
        → accept topic_id (xs ++ ys) b ≡ accept topic_id ys b'
    unfolding accept
    accept-append topic_id [] ys b b' e = ground arith
    accept-append topic_id (x ∷ xs) ys b b' e = elim (Option-cases (accept_one topic_id x b)) [
      | inl e' ↦ ground arith
      | inr (next, e') ↦ ground (arith, accept-append topic_id xs ys next b')
    ]

    -- For every topic the events of any history come in the order that a subscriber expects: a
    -- window is opened only when the topic has none, is refreshed or closed only when it has one,
    -- and what the events say is what the manager holds at the end.
    pub accept-run :
        (topic_id : String) (calls : List (Call V)) (c : WatchWindowManager V)
        → IsKeyed c.windows
        → accept topic_id (run calls c).1 (holds topic_id c) ≡ some (holds topic_id (run calls c).0)
    unfolding run accept
    accept-run topic_id [] c h = refl
    accept-run topic_id (call ∷ calls) c h =
        let (h', e) = accept-step topic_id call c h in
        accept-append topic_id (step call c).1 _ _ _ e
        ∙ accept-run topic_id calls (step call c).0 h'
