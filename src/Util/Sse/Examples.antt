-- ===== src/Util/Sse/Examples.antt =====
-- A client that connects, loses its connection and tries again.
use trenches.Base.{◌≡◌, ◌≢◌, refl, List, [], ◌∷◌, some, true, arith}
use trenches.Util.Sse.{
  Options, Event, resumes, fails, opens, errors, messages, timer_fires, disposes, dispose, run,
  create, resume, on_open, on_message,
}
use trenches.Util.Sse.Lifecycle.{links, one_link}
use trenches.Util.Sse.Backoff.{IsBounded, run-create-IsBounded}
use trenches.Util.Sse.Dispose.{IsQuiet, run-dispose-IsQuiet, dispose_leaks}

abbrev options : Options
options = record { min_backoff_ms = 1000; max_backoff_ms = 30_000 }

abbrev lost_connection : List Event
lost_connection = resumes ∷ opens 0 ∷ errors 0 120 ∷ timer_fires ∷ fails 40 ∷ []

one_link_example : links (run options (create options) lost_connection) ≡ 1
one_link_example = one_link options lost_connection (ground arith)

run-create-IsBounded_example : IsBounded options (run options (create options) lost_connection)
run-create-IsBounded_example =
    run-create-IsBounded options lost_connection (omega arith) (ground arith)

abbrev connection : List Event
connection = resumes ∷ opens 0 ∷ messages 0 (some "17") ∷ []

run-dispose-IsQuiet_example : IsQuiet (
    run options (dispose (run options (create options) connection)) (errors 0 3 ∷ timer_fires ∷ []))
unfolding run create resume on_open on_message
run-dispose-IsQuiet_example =
    run-dispose-IsQuiet options connection (errors 0 3 ∷ timer_fires ∷ []) (ground arith) refl

dispose_leaks_example :
    let c = run options (run options (create options) []) (disposes ∷ resumes ∷ []) in
    (c.disposed ≡ true) × (c.open_sources ≢ [])
unfolding run create
dispose_leaks_example = dispose_leaks options [] tt (ground arith)
