-- ===== src/Persistence/WriteQueue/Examples.antt =====
-- A queue of numbered tasks.
use trenches.Base.{ℕ, ◌≡◌, refl, List, [], ◌∷◌, ◌++◌, some, true, false}
use trenches.Persistence.WriteQueue.{WriteQueue, Event, pushes, settles, starts, create, run_all}
use trenches.Persistence.WriteQueue.Order.{settled, run_all-create}
use trenches.Persistence.WriteQueue.Bounds.{settle_all, settle_all-drains}

abbrev history : List (Event ℕ)
history = pushes 1 ∷ pushes 2 ∷ settles ∷ pushes 3 ∷ []

run_all-create_example :
    settled (run_all history create).1 ++ (run_all history create).0.queue ≡ 1 ∷ 2 ∷ 3 ∷ []
run_all-create_example = run_all-create history

abbrev awaiting : WriteQueue ℕ
awaiting = record {
  queue = 5 ∷ 6 ∷ [];
  running = true;
  warned_about_size = false;
  in_flight = some 4;
}

settle_all-drains_example :
    let (q', outcomes) = run_all (settle_all 3) awaiting in
    (outcomes ≡ starts 5 ∷ starts 6 ∷ []) × (q'.queue ≡ []) × (q'.running ≡ false)
settle_all-drains_example = settle_all-drains (5 ∷ 6 ∷ []) 4 awaiting refl refl
