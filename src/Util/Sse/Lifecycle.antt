-- ===== src/Util/Sse/Lifecycle.antt =====
-- One connection, or one attempt at it, at any time.
use trenches.Base.{
  ℕ, ◌+◌, ◌≤◌, ◌≡◌, ◌≢◌, refl, List, [], ◌∷◌, Option, none, some, true, false, length, arith,
  length-append, All,
}
use trenches.Util.Sse.{
  Options, Client, Event, resumes, fails, opens, errors, messages, timer_fires, disposes, contains,
  close, resume, resume_failed, on_open, on_message, on_error, fire, step, run, create,
}

abbrev pub pending_timers : Option ℕ → ℕ
pending_timers none = 0
pending_timers (some delay) = 1

-- The sources that are open, the timers that will make one, and the attempts under way.
pub links : Client → ℕ
links c = length c.open_sources + pending_timers c.reconnect_timer + length c.connecting

-- To close the only source leaves none.
length-close :
    (i : ℕ) (js : List ℕ)
    → length js ≤ 1
    → contains i js ≡ true
    → length (close i js) + 1 ≡ length js
length-close i [] h e = ground arith
length-close i (j ∷ []) h e = ground arith
length-close i (j ∷ k ∷ js) h e = absurd (omega arith)

step-links :
    (o : Options) (c : Client) (e : Event)
    → e ≢ disposes
    → c.disposed ≡ false
    → links c ≡ 1
    → (links (step o c e) ≡ 1) × ((step o c e).disposed ≡ false)
unfolding step links resume resume_failed on_open on_message on_error fire
step-links o c resumes h a l = ground arith
step-links o c (fails jitter) h a l = ground arith
step-links o c (opens i) h a l = ground arith
step-links o c (errors i jitter) h a l = ground (arith, length-close i c.open_sources)
step-links o c (messages i id) h a l = ground arith
step-links o c timer_fires h a l = ground (arith, length-append c.connecting (c.last_event_id ∷ []))
step-links o c disposes h a l = absurd (h refl)

run-links :
    (o : Options) (c : Client) (es : List Event)
    → All (λ e. e ≢ disposes) es
    → c.disposed ≡ false
    → links c ≡ 1
    → (links (run o c es) ≡ 1) × ((run o c es).disposed ≡ false)
unfolding run
run-links o c [] h a l = (l, a)
run-links o c (e ∷ es) h a l =
    let (l', a') = step-links o c e h.0 a l in run-links o (step o c e) es h.1 a' l'

-- Until it is disposed the client has exactly one link, whatever its environment does: it never
-- opens a second source beside a first, and it is never left without a source, an attempt under way
-- or a timer that starts one.
pub one_link :
    (o : Options) (es : List Event) → All (λ e. e ≢ disposes) es → links (run o (create o) es) ≡ 1
unfolding create links
one_link o es h = (run-links o (create o) es h refl refl).0
