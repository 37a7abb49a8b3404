-- ===== src/Narrative/Baseline/Examples.antt =====
-- Two observations, the first of which was flushed already.
use trenches.Base.{◌≡◌, List, [], ◌∷◌}
use trenches.Base.Number.{whole}
use trenches.Base.Fixed.{Fixed, fixed_number}
use trenches.Narrative.Baseline.{Counts, snapshot, initialize}
use trenches.Narrative.Baseline.Restart.{Event, observes, flushes, run, fresh, initialize-flush}

abbrev delta : Counts Fixed
delta = record { count = whole 1; engagement = whole 2; authors = whole 1 }

abbrev events : List (Event Fixed)
events = observes "sun" delta 9 ∷ flushes ∷ observes "moon" delta 5 ∷ []

initialize-flush_example :
    let (m, store) = run (flushes ∷ events) (fresh (whole 1000)) in
    snapshot "moon" 12 (initialize 10 store (fresh (whole 1000))) ≡ snapshot "moon" 12 m
initialize-flush_example = initialize-flush events (whole 1000) 10 "moon" 12
