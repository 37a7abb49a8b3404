-- ===== src/Persistence/WriteQueue.antt =====
-- packages/persistence/src/writeQueue.ts. A task is opaque; `run` waits in `await task()` until the
-- task settles, which is the event `settles`.
pub mod Order
pub mod Bounds
mod Examples
use trenches.Base.{
  ℕ, List, [], ◌∷◌, ◌++◌, Option, none, some, Bool, true, false, not, ◌&&◌, ltb, leb, length,
  if◌then◌else◌,
}

abbrev pub max_queue_size : ℕ
max_queue_size = 10_000

abbrev pub warn_queue_size : ℕ
warn_queue_size = 5000

pub record WriteQueue (A : Type 0) : Type 0 where
  pub queue : List A
  pub running : Bool
  pub warned_about_size : Bool
  -- The task that `run` awaits.
  pub in_flight : Option A

-- What becomes of a task, and what is printed on the console.
pub data Outcome (A : Type 0) : Type 0 where
  starts : A → Outcome A
  drops : A → Outcome A
  logs_full : Outcome A
  logs_large : ℕ → Outcome A

pub data Event (A : Type 0) : Type 0 where
  pushes : A → Event A
  settles : Event A

module _ {A : Type 0} where
  unfoldable pub create : WriteQueue A
  create = record { queue = []; running = false; warned_about_size = false; in_flight = none }

  -- The loop of `run`, up to its next `await`, or to its end.
  unfoldable pub next : WriteQueue A → WriteQueue A × List (Outcome A)
  next q = elim q.queue [
    | [] ↦ (record q { running = false; in_flight = none }, [])
    | t ∷ rest ↦ (record q { queue = rest; in_flight = some t }, starts t ∷ [])
  ]

  unfoldable pub run : WriteQueue A → WriteQueue A × List (Outcome A)
  unfolding next
  run q = if q.running then (q, []) else next (record q { running = true })

  abbrev drop_oldest : List A → List A × List (Outcome A)
  drop_oldest [] = ([], [])
  drop_oldest (t ∷ rest) = (rest, drops t ∷ [])

  drop_for_room : WriteQueue A → WriteQueue A × List (Outcome A)
  drop_for_room q =
      let (rest, dropped) = drop_oldest q.queue in
      (
        record q { queue = rest; warned_about_size = true },
        dropped ++ (if q.warned_about_size then [] else logs_full ∷ []),
      )

  -- The tests of `push` on the length of the queue.
  unfoldable pub check_size : WriteQueue A → WriteQueue A × List (Outcome A)
  unfolding drop_for_room
  check_size q =
      if leb max_queue_size (length q.queue)
      then drop_for_room q
      else if leb warn_queue_size (length q.queue) && not q.warned_about_size
      then (record q { warned_about_size = true }, logs_large (length q.queue) ∷ [])
      else if ltb (length q.queue) 2500
      then (record q { warned_about_size = false }, [])
      else (q, [])

  unfoldable pub push : A → WriteQueue A → WriteQueue A × List (Outcome A)
  unfolding check_size run
  push t q =
      let (checked, first) = check_size q in
      let (q', second) = run (record checked { queue = checked.queue ++ (t ∷ []) }) in
      (q', first ++ second)

  -- The awaited task settles, by a value or an exception.
  unfoldable pub settle : WriteQueue A → WriteQueue A × List (Outcome A)
  unfolding next
  settle q = elim q.in_flight [ none ↦ (q, []) | some t ↦ next q ]

  unfoldable pub step : Event A → WriteQueue A → WriteQueue A × List (Outcome A)
  unfolding push settle
  step (pushes t) q = push t q
  step settles q = settle q

  unfoldable pub run_all : List (Event A) → WriteQueue A → WriteQueue A × List (Outcome A)
  unfolding step
  run_all [] q = (q, [])
  run_all (e ∷ es) q =
      let (q', first) = step e q in let (last, rest) = run_all es q' in (last, first ++ rest)
