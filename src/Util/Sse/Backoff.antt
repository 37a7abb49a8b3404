-- ===== src/Util/Sse/Backoff.antt =====
-- The delays between attempts.
use trenches.Base.{
  ℕ, ◌+◌, ◌*◌, ◌≤◌, ◌<◌, ◌≡◌, refl, sym, ap, ◌∙◌, String, min, List, [], ◌∷◌, Option, none, some,
  false, arith, All,
}
use trenches.Util.Sse.{
  Options, Client, Event, resumes, fails, opens, errors, messages, timer_fires, disposes, resume,
  resume_failed, on_open, on_message, on_error, fire, dispose, step, run, create,
}

-- `Math.floor(Math.random() * 500)`.
abbrev pub IsJitter : Event → Type 0
IsJitter (fails jitter) = jitter < 500
IsJitter (errors i jitter) = jitter < 500
IsJitter e = Unit

abbrev pub InRange : Options → Option ℕ → Type 0
InRange o none = Unit
InRange o (some delay) = (o.min_backoff_ms ≤ delay) × (delay < o.max_backoff_ms + 500)

pub record IsBounded (o : Options) (c : Client) : Type 0 where
  pub above : o.min_backoff_ms ≤ c.backoff
  pub below : c.backoff ≤ o.max_backoff_ms
  pub timer : InRange o c.reconnect_timer

step-IsBounded :
    (o : Options) (c : Client) (e : Event)
    → o.min_backoff_ms ≤ o.max_backoff_ms
    → IsJitter e
    → IsBounded o c
    → IsBounded o (step o c e)
unfolding step resume resume_failed on_open on_message on_error fire dispose
step-IsBounded o c resumes m j v = ground arith
step-IsBounded o c (fails jitter) m j v = ground arith
step-IsBounded o c (opens i) m j v = ground arith
step-IsBounded o c (errors i jitter) m j v = ground arith
step-IsBounded o c (messages i id) m j v = ground arith
step-IsBounded o c timer_fires m j v = ground arith
step-IsBounded o c disposes m j v = ground arith

run-IsBounded :
    (o : Options) (c : Client) (es : List Event)
    → o.min_backoff_ms ≤ o.max_backoff_ms
    → All IsJitter es
    → IsBounded o c
    → IsBounded o (run o c es)
unfolding run
run-IsBounded o c [] m j v = v
run-IsBounded o c (e ∷ es) m j v =
    run-IsBounded o (step o c e) es m j.1 (step-IsBounded o c e m j.0 v)

-- The backoff stays between its two limits, and every delay that is set is at least the lower limit
-- and less than half a second above the upper one, in any history.
pub run-create-IsBounded :
    (o : Options) (es : List Event)
    → o.min_backoff_ms ≤ o.max_backoff_ms
    → All IsJitter es
    → IsBounded o (run o (create o) es)
unfolding create
run-create-IsBounded o es m j =
    run-IsBounded o (create o) es m j
      (record { above = omega arith; below = omega arith; timer = tt })

-- An attempt that fails, and the timer that starts the next.
abbrev pub retries : List ℕ → List Event
retries [] = []
retries (jitter ∷ js) = fails jitter ∷ timer_fires ∷ retries js

-- `b`, doubled once for each element.
unfoldable pub doubled : ℕ → List ℕ → ℕ
doubled b [] = b
doubled b (j ∷ js) = doubled (b * 2) js

min-doubled : (m b : ℕ) (js : List ℕ) → min (doubled (min b m) js) m ≡ min (doubled b js) m
unfolding doubled
min-doubled m b [] = omega arith
min-doubled m b (j ∷ js) =
    let same : min (min b m * 2) m ≡ min (b * 2) m = omega arith in
    sym (min-doubled m (min b m * 2) js)
    ∙ ap (λ x. min (doubled x js) m) same
    ∙ min-doubled m (b * 2) js

run-retries :
    (o : Options) (c : Client) {id : Option String} (js : List ℕ)
    → c.disposed ≡ false
    → c.connecting ≡ id ∷ []
    → c.backoff ≤ o.max_backoff_ms
    → (run o c (retries js)).backoff ≡ min (doubled c.backoff js) o.max_backoff_ms
unfolding run doubled fire resume_failed
run-retries o c [] a k b = omega arith
run-retries o c (j ∷ js) a k b =
    let c' = step o (step o c (fails j)) timer_fires in
    ground (
      arith,
      run-retries o c' {id = c.last_event_id} js,
      min-doubled o.max_backoff_ms (c.backoff * 2) js,
    )

-- After some failures in a row the backoff is the lower limit, doubled as often, but at most the
-- upper limit.
pub backoff_doubles :
    (o : Options) (js : List ℕ)
    → o.min_backoff_ms ≤ o.max_backoff_ms
    → (run o (create o) (retries js)).backoff ≡ min (doubled o.min_backoff_ms js) o.max_backoff_ms
unfolding create
backoff_doubles o js m = run-retries o (create o) {id = none} js refl refl m
