-- ===== src/Safety/Engine/Cached.antt =====
-- What the cache of evaluations does, when the evaluations of a mint do not overlap.
use trenches.Base.{
  ℕ, ◌+◌, ◌≤◌, ◌≡◌, refl, Option, none, some, String, if◌then◌else◌, arith, Option-cases, inl, inr,
  List, [], ◌∷◌, All, ◌≢◌, ap, sym, subst, ◌∙◌, text_discrete,
}
use trenches.Base.Dict
use mathlib.Core.Option.{some-injective}
use trenches.Base.Number.{Number}
use trenches.Util.TtlCache
use trenches.Util.TtlCache.{TtlCache}
use trenches.Safety.Rugguard.{TokenCandidate}
use trenches.Safety.Engine.{
  SafetyEvaluation, Setting, is_fast_entry, evaluate_fast, evaluate_full, evaluate_candidate,
}

-- An evaluation of a candidate: what is read meanwhile, and the times of its start and its end.
pub record Call (V : Type 0) : Type 0 where
  pub setting : Setting V
  pub now : ℕ
  pub later : ℕ
  pub candidate : TokenCandidate V

module _ {V : Type 0} ⦃d : Number V⦄ where
  -- The evaluation that is made when none is in the cache.
  abbrev pub fresh : Setting V → ℕ → TokenCandidate V → Option (SafetyEvaluation V)
  fresh s now c = if is_fast_entry s.config c then evaluate_fast s now c else evaluate_full s now c

  ttl_ms-get :
      (key : String) (now : ℕ) (cache : TtlCache (SafetyEvaluation V))
      → (TtlCache.get key now cache).1.ttl_ms ≡ cache.ttl_ms
  unfolding TtlCache.get
  ttl_ms-get key now cache = ground arith

  -- An evaluation that is stored is found under the same mint.
  evaluate_candidate-hit :
      (e : SafetyEvaluation V) (s' : Setting V) (now' later' : ℕ) (c' : TokenCandidate V)
      (cache : TtlCache (SafetyEvaluation V))
      → (TtlCache.get c'.mint now' cache).0 ≡ some e
      → (evaluate_candidate s' now' later' c' cache).0 ≡ some e
  unfolding evaluate_candidate
  evaluate_candidate-hit e s' now' later' c' cache h = rw (evaluate_candidate, h) refl

  -- What a fresh evaluation leaves.
  abbrev after :
      ℕ
      → String
      → TtlCache (SafetyEvaluation V)
      → Option (SafetyEvaluation V)
      → Option (SafetyEvaluation V) × TtlCache (SafetyEvaluation V)
  after later mint cache none = (none, cache)
  after later mint cache (some e) = (some e, TtlCache.set mint e later cache)

  evaluate_candidate-after :
      (s : Setting V) (now later : ℕ) (c : TokenCandidate V) (cache : TtlCache (SafetyEvaluation V))
      (o : Option (SafetyEvaluation V))
      → (TtlCache.get c.mint now cache).0 ≡ none
      → fresh s now c ≡ o
      → evaluate_candidate s now later c cache
        ≡ after later c.mint (TtlCache.get c.mint now cache).1 o
  unfolding evaluate_candidate
  evaluate_candidate-after s now later c cache none miss e = rw (evaluate_candidate, miss, e) refl
  evaluate_candidate-after s now later c cache (some x) miss e =
      rw (evaluate_candidate, miss, e) refl

  -- One evaluation after the other.
  unfoldable pub run : List (Call V) → TtlCache (SafetyEvaluation V) → TtlCache (SafetyEvaluation V)
  run [] cache = cache
  run (x ∷ xs) cache = run xs (evaluate_candidate x.setting x.now x.later x.candidate cache).1

  -- What the store has of the mint.
  abbrev Holds : String → SafetyEvaluation V → ℕ → TtlCache (SafetyEvaluation V) → Type 0
  Holds mint e until cache =
      Dict.get mint cache.store ≡ some (record { value = e; expires_at = until })

  get-Holds :
      (mint key : String) (e : SafetyEvaluation V) (until now : ℕ)
      (cache : TtlCache (SafetyEvaluation V))
      → now ≤ until
      → Holds mint e until cache
      → Holds mint e until (TtlCache.get key now cache).1
  unfolding TtlCache.get
  get-Holds mint key e until now cache h k =
      ground (arith, h, k, Dict.get-remove key mint cache.store)

  get-found :
      (mint : String) (e : SafetyEvaluation V) (until now : ℕ)
      (cache : TtlCache (SafetyEvaluation V))
      → now ≤ until
      → Holds mint e until cache
      → TtlCache.get mint now cache ≡ (some e, cache)
  unfolding TtlCache.get
  get-found mint e until now cache h k = ground (arith, h, k)

  set-Holds :
      (mint key : String) (e x : SafetyEvaluation V) (until now : ℕ)
      (cache : TtlCache (SafetyEvaluation V))
      → key ≢ mint
      → Holds mint e until cache
      → Holds mint e until (TtlCache.set key x now cache)
  unfolding TtlCache.set
  set-Holds mint key e x until now cache ne k =
      Dict.get-put_ne key mint (record { value = x; expires_at = now + cache.ttl_ms }) cache.store
        ne
      ∙ k

  set_self-Holds :
      (mint : String) (e : SafetyEvaluation V) (later : ℕ) (cache : TtlCache (SafetyEvaluation V))
      → Holds mint e (later + cache.ttl_ms) (TtlCache.set mint e later cache)
  unfolding TtlCache.set
  set_self-Holds mint e later cache =
      Dict.get-put_self mint (record { value = e; expires_at = later + cache.ttl_ms }) cache.store

  after-Holds :
      (mint key : String) (e : SafetyEvaluation V) (until later : ℕ)
      (cache : TtlCache (SafetyEvaluation V)) (o : Option (SafetyEvaluation V))
      → key ≢ mint
      → Holds mint e until cache
      → Holds mint e until (after later key cache o).1
  after-Holds mint key e until later cache none ne k = k
  after-Holds mint key e until later cache (some x) ne k =
      set-Holds mint key e x until later cache ne k

  evaluate-Holds :
      (mint : String) (e : SafetyEvaluation V) (until : ℕ) (x : Call V)
      (cache : TtlCache (SafetyEvaluation V))
      → x.now ≤ until
      → Holds mint e until cache
      → Holds mint e until (evaluate_candidate x.setting x.now x.later x.candidate cache).1
  unfolding evaluate_candidate
  evaluate-Holds mint e until x cache h k =
      let got = get-Holds mint x.candidate.mint e until x.now cache h k in
      elim (Option-cases (TtlCache.get x.candidate.mint x.now cache).0) [
        | inr (found, hit) ↦ rw (evaluate_candidate, hit) got
        | inl miss ↦ elim (text_discrete x.candidate.mint mint) [
          | yes same ↦ absurd (ground (arith, miss, same, get-found mint e until x.now cache h k))
          | no ne ↦
              subst (λ r. Holds mint e until r.1)
                (sym
                  (evaluate_candidate-after x.setting x.now x.later x.candidate cache _ miss refl))
                (after-Holds mint x.candidate.mint e until x.later _ _ ne got)
        ]
      ]

  run-Holds :
      (mint : String) (e : SafetyEvaluation V) (until : ℕ) (xs : List (Call V))
      (cache : TtlCache (SafetyEvaluation V))
      → All (λ x. x.now ≤ until) xs
      → Holds mint e until cache
      → Holds mint e until (run xs cache)
  unfolding run
  run-Holds mint e until [] cache h k = k
  run-Holds mint e until (x ∷ xs) cache h k =
      run-Holds mint e until xs _ h.1 (evaluate-Holds mint e until x cache h.0 k)

  repeated :
      (mint : String) (e : SafetyEvaluation V) (later : ℕ)
      (got cache : TtlCache (SafetyEvaluation V)) (stored : SafetyEvaluation V) (xs : List (Call V))
      (x : Call V)
      → stored ≡ e
      → got.ttl_ms ≡ cache.ttl_ms
      → All (λ y. y.now ≤ later + cache.ttl_ms) (x ∷ xs)
      → x.candidate.mint ≡ mint
      → (evaluate_candidate x.setting x.now x.later x.candidate
          (run xs (TtlCache.set mint stored later got))).0
        ≡ some e
  repeated mint e later got cache stored xs x same ttl before named =
      let until = later + cache.ttl_ms in
      let set' : Holds mint e until (TtlCache.set mint stored later got) =
        subst (λ v. Holds mint v until (TtlCache.set mint stored later got)) same
          (subst (λ n. Holds mint stored (later + n) (TtlCache.set mint stored later got)) ttl
            (set_self-Holds mint stored later got)) in
      let kept = run-Holds mint e until xs _ before.1 set' in
      evaluate_candidate-hit e x.setting x.now x.later x.candidate _ (
        ap (λ m. (TtlCache.get m x.now (run xs (TtlCache.set mint stored later got))).0) named
        ∙ ap (λ r. r.0) (get-found mint e until x.now _ before.0 kept))

  -- Without a live entry for the mint the result is the fresh evaluation. One that succeeds is
  -- repeated for each candidate with the same mint, after any other evaluations one after the other,
  -- until its time to live is over, whatever the candidates' figures, the chain and the configuration
  -- then are; one that throws is not stored.
  pub evaluate_candidate-fresh :
      (s : Setting V) (now later : ℕ) (c : TokenCandidate V) (cache : TtlCache (SafetyEvaluation V))
      → (TtlCache.get c.mint now cache).0 ≡ none
      → let (found, cache') = evaluate_candidate s now later c cache in
        (found ≡ fresh s now c)
        × ((e : SafetyEvaluation V) (xs : List (Call V)) (x : Call V)
            → found ≡ some e
            → All (λ y. y.now ≤ later + cache.ttl_ms) (x ∷ xs)
            → x.candidate.mint ≡ c.mint
            → (evaluate_candidate x.setting x.now x.later x.candidate (run xs cache')).0 ≡ some e)
        × (found ≡ none → cache' ≡ (TtlCache.get c.mint now cache).1)
  evaluate_candidate-fresh s now later c cache miss = elim (Option-cases (fresh s now c)) [
    | inl e ↦
        rw (evaluate_candidate-after s now later c cache none miss e, e)
          (refl, (λ x xs y h. absurd (ground (arith, h))), λ h. refl)
    | inr (x, e) ↦
        rw (evaluate_candidate-after s now later c cache (some x) miss e, e)
          (
            refl,
            (λ y xs z h before same.
                repeated c.mint y later (TtlCache.get c.mint now cache).1 cache x xs z
                  (some-injective _ _ h) (ttl_ms-get c.mint now cache) before same),
            λ h. absurd (ground (arith, h)),
          )
  ]
