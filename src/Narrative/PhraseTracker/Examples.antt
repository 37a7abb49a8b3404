-- ===== src/Narrative/PhraseTracker/Examples.antt =====
-- Observations at concrete times.
use trenches.Base.{ℕ, ◌+◌, ◌≡◌, List, [], ◌∷◌, arith, length, filter, text_discrete}
use trenches.Base.Dict
use trenches.Base.Number.{whole}
use trenches.Base.Fixed.{Fixed, fixed_number}
use trenches.Narrative.PhraseTracker.{
  PhraseEvent, empty_state, prune, expire, compact, append, enforce_limit, observe_state, observe,
  ensure_state,
}
use trenches.Narrative.PhraseTracker.Limit.{
  HasExcess, lost, observed, excess, observe_state-HasExcess, observed-HasExcess,
}
use trenches.Narrative.PhraseTracker.Window.{IsRoomy, is_recent, chron}
use trenches.Narrative.PhraseTracker.Minute.{Post, events_of, run, HasRoom, posts_per_minute}

abbrev post : ℕ → PhraseEvent Fixed
post timestamp = record { timestamp = timestamp; engagement = whole 2; author_id = "ann" }

abbrev history : List (PhraseEvent Fixed)
history = post 30_000 ∷ post 10_000 ∷ []

observed-HasExcess_example : HasExcess (excess history) (observed history)
observed-HasExcess_example = observed-HasExcess history

observe_state-HasExcess_example :
    HasExcess
      (excess history + lost (prune 95_000 (observed history)))
      (observe_state (post 95_000) (observed history))
observe_state-HasExcess_example =
    observe_state-HasExcess (post 95_000) (observed history) (excess history)
      (observed-HasExcess history)

-- A post of another phrase stands between.
abbrev posts : List (Post Fixed)
posts =
    record { phrase = "moon"; event = post 30_000 }
    ∷ record { phrase = "sun"; event = post 20_000 }
    ∷ record { phrase = "moon"; event = post 10_000 }
    ∷ []

abbrev last : Post Fixed
last = record { phrase = "moon"; event = post 80_000 }

posts_per_minute_example :
    (observe "moon" (post 80_000) (run posts)).0.posts_per_minute
    ≡ length (filter (is_recent 80_000) (chron (post 80_000 ∷ events_of "moon" posts)))
unfolding HasRoom IsRoomy observed observe_state prune expire compact append enforce_limit
    empty_state run observe ensure_state events_of Dict.get Dict.put text_discrete
posts_per_minute_example =
    posts_per_minute last posts (omega arith, (omega arith, (omega arith, (omega arith, tt))))
      (ground arith) (ground arith)
