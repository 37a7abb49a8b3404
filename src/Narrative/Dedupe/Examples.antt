-- ===== src/Narrative/Dedupe/Examples.antt =====
-- The cache at concrete inputs.
use trenches.Base.{◌≡◌, refl, true, List, [], ◌∷◌, arith, text_discrete}
use trenches.Base.Dict
use trenches.Narrative.Dedupe.{has, within, prune}
use trenches.Narrative.Dedupe.Window.{Call, seen_recently, run, fresh, has-seen_recently}

abbrev history : List Call
history =
    record { id = "b"; now = 900 }
    ∷ record { id = "a"; now = 700 }
    ∷ record { id = "a"; now = 10 }
    ∷ []

seen_again : (has "a" 1100 (run (fresh 500) history)).0 ≡ true
unfolding run has within prune text_discrete Dict.get Dict.put Dict.keep
seen_again = refl

has-seen_recently_example :
    (has "a" 1300 (run (fresh 500) history)).0
    ≡ seen_recently 500 history (record { id = "a"; now = 1300 })
has-seen_recently_example =
    has-seen_recently 500 history (record { id = "a"; now = 1300 }) (omega arith)
