-- ===== src/Util/Sse/Dispose.antt =====
-- What `dispose` leaves behind.
use trenches.Base.{
  ℕ, ◌+◌, ◌≡◌, ◌≢◌, refl, inl, inr, Bool-cases, ◌==◌, List, [], ◌∷◌, Option, none, some, true,
  false, arith, All, String,
}
use trenches.Util.Sse.{
  Options, Client, Event, resumes, fails, opens, errors, messages, timer_fires, disposes, resume,
  resume_failed, on_open, on_message, on_error, fire, dispose, step, run, create,
}

-- The three phases of a client that is not disposed.
data Phase (c : Client) : Type 0 where
  waiting : (d : ℕ) → c.open_sources ≡ [] → c.connecting ≡ [] → c.reconnect_timer ≡ some d → Phase c
  connecting_to :
      (id : Option String)
      → c.open_sources ≡ []
      → c.connecting ≡ id ∷ []
      → c.reconnect_timer ≡ none
      → Phase c
  connected :
      (i : ℕ)
      → c.open_sources ≡ i ∷ []
      → c.current_source ≡ some i
      → c.connecting ≡ []
      → c.reconnect_timer ≡ none
      → Phase c

step-waiting :
    (o : Options) (c : Client) (e : Event) (d : ℕ)
    → e ≢ disposes
    → c.disposed ≡ false
    → c.open_sources ≡ []
    → c.connecting ≡ []
    → c.reconnect_timer ≡ some d
    → Phase (step o c e) × ((step o c e).disposed ≡ false)
unfolding step resume resume_failed on_open on_message on_error fire
step-waiting o c resumes d h a s k t =
    (waiting d (ground arith) (ground arith) (ground arith), ground arith)
step-waiting o c (fails jitter) d h a s k t =
    (waiting d (ground arith) (ground arith) (ground arith), ground arith)
step-waiting o c (opens i) d h a s k t =
    (waiting d (ground arith) (ground arith) (ground arith), ground arith)
step-waiting o c (errors i jitter) d h a s k t =
    (waiting d (ground arith) (ground arith) (ground arith), ground arith)
step-waiting o c (messages i id) d h a s k t =
    (waiting d (ground arith) (ground arith) (ground arith), ground arith)
step-waiting o c timer_fires d h a s k t =
    (connecting_to c.last_event_id (ground arith) (ground arith) (ground arith), ground arith)
step-waiting o c disposes d h a s k t = absurd (h refl)

step-connecting :
    (o : Options) (c : Client) (e : Event) (id : Option String)
    → e ≢ disposes
    → c.disposed ≡ false
    → c.open_sources ≡ []
    → c.connecting ≡ id ∷ []
    → c.reconnect_timer ≡ none
    → Phase (step o c e) × ((step o c e).disposed ≡ false)
unfolding step resume resume_failed on_open on_message on_error fire
step-connecting o c resumes id h a s k t = (
  connected c.next_source (ground arith) (ground arith) (ground arith) (ground arith),
  ground arith,
)
step-connecting o c (fails jitter) id h a s k t =
    (waiting (c.backoff + jitter) (ground arith) (ground arith) (ground arith), ground arith)
step-connecting o c (opens i) id h a s k t =
    (connecting_to id (ground arith) (ground arith) (ground arith), ground arith)
step-connecting o c (errors i jitter) id h a s k t =
    (connecting_to id (ground arith) (ground arith) (ground arith), ground arith)
step-connecting o c (messages i e) id h a s k t =
    (connecting_to id (ground arith) (ground arith) (ground arith), ground arith)
step-connecting o c timer_fires id h a s k t =
    (connecting_to id (ground arith) (ground arith) (ground arith), ground arith)
step-connecting o c disposes id h a s k t = absurd (h refl)

step-connected :
    (o : Options) (c : Client) (e : Event) (i : ℕ)
    → e ≢ disposes
    → c.disposed ≡ false
    → c.open_sources ≡ i ∷ []
    → c.current_source ≡ some i
    → c.connecting ≡ []
    → c.reconnect_timer ≡ none
    → Phase (step o c e) × ((step o c e).disposed ≡ false)
unfolding step resume resume_failed on_open on_message on_error fire
step-connected o c resumes i h a s p k t =
    (connected i (ground arith) (ground arith) (ground arith) (ground arith), ground arith)
step-connected o c (fails jitter) i h a s p k t =
    (connected i (ground arith) (ground arith) (ground arith) (ground arith), ground arith)
step-connected o c (opens j) i h a s p k t =
    (connected i (ground arith) (ground arith) (ground arith) (ground arith), ground arith)
step-connected o c (errors j jitter) i h a s p k t = elim (Bool-cases (j == i)) [
  | inl e ↦
      (waiting (c.backoff + jitter) (ground arith) (ground arith) (ground arith), ground arith)
  | inr e ↦ (connected i (ground arith) (ground arith) (ground arith) (ground arith), ground arith)
]
step-connected o c (messages j e) i h a s p k t =
    (connected i (ground arith) (ground arith) (ground arith) (ground arith), ground arith)
step-connected o c timer_fires i h a s p k t =
    (connected i (ground arith) (ground arith) (ground arith) (ground arith), ground arith)
step-connected o c disposes i h a s p k t = absurd (h refl)

step-Phase :
    (o : Options) (c : Client) (e : Event)
    → e ≢ disposes
    → c.disposed ≡ false
    → Phase c
    → Phase (step o c e) × ((step o c e).disposed ≡ false)
step-Phase o c e h a (waiting d s k t) = step-waiting o c e d h a s k t
step-Phase o c e h a (connecting_to id s k t) = step-connecting o c e id h a s k t
step-Phase o c e h a (connected i s p k t) = step-connected o c e i h a s p k t

run-Phase :
    (o : Options) (c : Client) (es : List Event)
    → All (λ e. e ≢ disposes) es
    → c.disposed ≡ false
    → Phase c
    → Phase (run o c es) × ((run o c es).disposed ≡ false)
unfolding run
run-Phase o c [] h a p = (p, a)
run-Phase o c (e ∷ es) h a p =
    let (p', a') = step-Phase o c e h.0 a p in run-Phase o (step o c e) es h.1 a' p'

create-Phase : (o : Options) → Phase (create o) × ((create o).disposed ≡ false)
unfolding create
create-Phase o = (connecting_to none refl refl refl, refl)

-- Nothing is open, nothing is pending, and nothing will be.
pub record IsQuiet (c : Client) : Type 0 where
  pub disposed : c.disposed ≡ true
  pub closed : c.open_sources ≡ []
  pub idle : c.connecting ≡ []
  pub untimed : c.reconnect_timer ≡ none

step-IsQuiet : (o : Options) (c : Client) (e : Event) → IsQuiet c → IsQuiet (step o c e)
unfolding step resume resume_failed on_open on_message on_error fire dispose
step-IsQuiet o c resumes q = ground arith
step-IsQuiet o c (fails jitter) q = ground arith
step-IsQuiet o c (opens i) q = ground arith
step-IsQuiet o c (errors i jitter) q = ground arith
step-IsQuiet o c (messages i id) q = ground arith
step-IsQuiet o c timer_fires q = ground arith
step-IsQuiet o c disposes q = ground arith

run-IsQuiet : (o : Options) (c : Client) (es : List Event) → IsQuiet c → IsQuiet (run o c es)
unfolding run
run-IsQuiet o c [] q = q
run-IsQuiet o c (e ∷ es) q = run-IsQuiet o (step o c e) es (step-IsQuiet o c e q)

dispose-IsQuiet : (c : Client) → Phase c → c.connecting ≡ [] → IsQuiet (dispose c)
unfolding dispose
dispose-IsQuiet c (waiting d s k t) e = ground arith
dispose-IsQuiet c (connecting_to id s k t) e = ground arith
dispose-IsQuiet c (connected i s p k t) e = ground arith

-- If no attempt is under way when the client is disposed, then it never has a source, an attempt or
-- a timer again, whatever happens later.
pub run-dispose-IsQuiet :
    (o : Options) (before after : List Event)
    → All (λ e. e ≢ disposes) before
    → (run o (create o) before).connecting ≡ []
    → IsQuiet (run o (dispose (run o (create o) before)) after)
run-dispose-IsQuiet o before after h k =
    run-IsQuiet o _ after
      (dispose-IsQuiet _ (run-Phase o _ before h (create-Phase o).1 (create-Phase o).0).0 k)

dispose-resume :
    (o : Options) (c : Client)
    → Phase c
    → c.connecting ≢ []
    → let c' = run o c (disposes ∷ resumes ∷ []) in
      (c'.disposed ≡ true) × (c'.open_sources ≡ c.next_source ∷ [])
unfolding run dispose resume
dispose-resume o c (waiting d s k t) b = absurd (b k)
dispose-resume o c (connecting_to id s k t) b = ground arith
dispose-resume o c (connected i s p k t) b = absurd (b k)

-- If an attempt is under way when the client is disposed and the store then answers, the client is
-- disposed and has an open source.
pub dispose_leaks :
    (o : Options) (before : List Event)
    → All (λ e. e ≢ disposes) before
    → (run o (create o) before).connecting ≢ []
    → let c = run o (run o (create o) before) (disposes ∷ resumes ∷ []) in
      (c.disposed ≡ true) × (c.open_sources ≢ [])
dispose_leaks o before h b =
    let (p, a) = run-Phase o _ before h (create-Phase o).1 (create-Phase o).0 in
    ground (arith, dispose-resume o (run o (create o) before) p b)
