-- ===== src/Persistence/WriteQueue/Bounds.antt =====
-- The limit of the queue, and when its tasks run.
use trenches.Base.{
  ℕ, zero, suc, ◌+◌, ◌≤◌, ◌<◌, ◌≡◌, refl, List, [], ◌∷◌, none, some, true, false, length,
  length-append, arith, map, leb, take, if◌then◌else◌,
}
use trenches.Persistence.WriteQueue.{
  WriteQueue, Outcome, starts, drops, logs_full, logs_large, Event, pushes, settles, create, next,
  run, check_size, push, settle, run_all, max_queue_size,
}

module _ {A : Type 0} where
  -- Nothing runs and nothing waits, or a task is awaited and the queue is within its limit.
  pub data IsSound (q : WriteQueue A) : Type 0 where
    idle : q.running ≡ false → q.queue ≡ [] → q.in_flight ≡ none → IsSound q
    busy :
        (t : A)
        → q.running ≡ true
        → q.in_flight ≡ some t
        → length q.queue ≤ max_queue_size
        → IsSound q

  next-IsSound :
      (q : WriteQueue A) (l : List A)
      → q.queue ≡ l
      → q.running ≡ true
      → length l ≤ max_queue_size + 1
      → IsSound (next q).0
  unfolding next
  next-IsSound q [] e r h = idle (ground arith) (ground arith) (ground arith)
  next-IsSound q (t ∷ rest) e r h = busy t (ground arith) (ground arith) (ground arith)

  check_size-length :
      (q : WriteQueue A)
      → length q.queue ≤ max_queue_size
      → (length (check_size q).0.queue < max_queue_size)
        × ((check_size q).0.running ≡ q.running)
        × ((check_size q).0.in_flight ≡ q.in_flight)
  unfolding check_size
  check_size-length q h = ground arith

  check_size-empty : (q : WriteQueue A) → q.queue ≡ [] → (check_size q).0.queue ≡ []
  unfolding check_size
  check_size-empty q h = ground arith

  push-IsSound : (t : A) (q : WriteQueue A) → IsSound q → IsSound (push t q).0
  unfolding push
  push-IsSound t q (idle r e f) =
      busy t (ground (arith, check_size-length q, check_size-empty q e))
        (ground (arith, check_size-length q, check_size-empty q e))
        (ground (arith, check_size-length q, check_size-empty q e))
  push-IsSound t q (busy u r f h) =
      busy u (ground (arith, check_size-length q h)) (ground (arith, check_size-length q h))
        (ground (arith, check_size-length q h, length-append (check_size q).0.queue (t ∷ [])))

  settle-IsSound : (q : WriteQueue A) → IsSound q → IsSound (settle q).0
  unfolding settle
  settle-IsSound q (idle r e f) = idle (ground arith) (ground arith) (ground arith)
  settle-IsSound q (busy u r f h) = rw (f, settle) (next-IsSound q q.queue refl r (omega arith))

  run_all-IsSound : (es : List (Event A)) (q : WriteQueue A) → IsSound q → IsSound (run_all es q).0
  unfolding run_all
  run_all-IsSound [] q v = v
  run_all-IsSound (pushes t ∷ es) q v = run_all-IsSound es (push t q).0 (push-IsSound t q v)
  run_all-IsSound (settles ∷ es) q v = run_all-IsSound es (settle q).0 (settle-IsSound q v)

  -- After any history the queue holds at most its limit, and a task waits only while another is
  -- awaited.
  pub run_all-create-IsSound : (es : List (Event A)) → IsSound (run_all es create).0
  unfolding create
  run_all-create-IsSound es = run_all-IsSound es create (idle refl refl refl)

  abbrev pub dropped : List (Outcome A) → List A
  dropped [] = []
  dropped (drops t ∷ os) = t ∷ dropped os
  dropped (starts t ∷ os) = dropped os
  dropped (logs_full ∷ os) = dropped os
  dropped (logs_large n ∷ os) = dropped os

  -- A push drops a task only if the queue is full, and then the one that waited longest.
  pub dropped-push :
      (t : A) (q : WriteQueue A)
      → IsSound q
      → dropped (push t q).1 ≡ (if leb max_queue_size (length q.queue) then take 1 q.queue else [])
  unfolding push check_size run next
  dropped-push t q (idle r e f) = ground arith
  dropped-push t q (busy u r f h) = ground arith

  abbrev pub settle_all : ℕ → List (Event A)
  settle_all zero = []
  settle_all (suc n) = settles ∷ settle_all n

  -- From a state in which a task is awaited, as many settlements as tasks, the awaited one
  -- included, start the others one after another, in their order, drop none, and leave the queue
  -- idle.
  pub settle_all-drains :
      (ts : List A) (u : A) (q : WriteQueue A)
      → q.queue ≡ ts
      → q.in_flight ≡ some u
      → let (q', outcomes) = run_all (settle_all (suc (length ts))) q in
        (outcomes ≡ map starts ts) × (q'.queue ≡ []) × (q'.running ≡ false)
  unfolding run_all settle next
  settle_all-drains [] u q e f = ground arith
  settle_all-drains (t ∷ ts) u q e f =
      ground (arith, settle_all-drains ts t (record q { queue = ts; in_flight = some t }))
