-- ===== src/Persistence/WriteQueue/Order.antt =====
-- No task is lost unseen, and none overtakes another.
use mathlib.Core.List.{append-nil, append_assoc}
use trenches.Base.{◌≡◌, refl, ap, sym, ◌∙◌, List, [], ◌∷◌, ◌++◌, arith}
use trenches.Persistence.WriteQueue.{
  WriteQueue, Outcome, starts, drops, logs_full, logs_large, Event, pushes, settles, create, next,
  run, check_size, push, settle, run_all,
}

module _ {A : Type 0} where
  -- The tasks that were started or dropped, in this order.
  abbrev pub settled : List (Outcome A) → List A
  settled [] = []
  settled (starts t ∷ os) = t ∷ settled os
  settled (drops t ∷ os) = t ∷ settled os
  settled (logs_full ∷ os) = settled os
  settled (logs_large n ∷ os) = settled os

  abbrev pub pushed : List (Event A) → List A
  pushed [] = []
  pushed (pushes t ∷ es) = t ∷ pushed es
  pushed (settles ∷ es) = pushed es

  settled-append : (xs ys : List (Outcome A)) → settled (xs ++ ys) ≡ settled xs ++ settled ys
  settled-append [] ys = refl
  settled-append (starts t ∷ xs) ys = ap (◌∷◌ t) (settled-append xs ys)
  settled-append (drops t ∷ xs) ys = ap (◌∷◌ t) (settled-append xs ys)
  settled-append (logs_full ∷ xs) ys = settled-append xs ys
  settled-append (logs_large n ∷ xs) ys = settled-append xs ys

  next-settled : (q : WriteQueue A) → settled (next q).1 ++ (next q).0.queue ≡ q.queue
  unfolding next
  next-settled q = ground arith

  run-settled : (q : WriteQueue A) → settled (run q).1 ++ (run q).0.queue ≡ q.queue
  unfolding run
  run-settled q = ground arith

  check_size-settled :
      (q : WriteQueue A) → settled (check_size q).1 ++ (check_size q).0.queue ≡ q.queue
  unfolding check_size
  check_size-settled q = ground arith

  push-settled :
      (t : A) (q : WriteQueue A) → settled (push t q).1 ++ (push t q).0.queue ≡ q.queue ++ (t ∷ [])
  unfolding push
  push-settled t q =
      let checked = (check_size q).0 in
      let q' = record checked { queue = checked.queue ++ (t ∷ []) } in
      rw (settled-append (check_size q).1 (run q').1, append_assoc, run-settled q')
        (sym (append_assoc (settled (check_size q).1) checked.queue (t ∷ []))
          ∙ ap (λ l. l ++ (t ∷ [])) (check_size-settled q))

  settle-settled : (q : WriteQueue A) → settled (settle q).1 ++ (settle q).0.queue ≡ q.queue
  unfolding settle
  settle-settled q = ground (arith, next-settled q)

  run_all-settled :
      (es : List (Event A)) (q : WriteQueue A)
      → settled (run_all es q).1 ++ (run_all es q).0.queue ≡ q.queue ++ pushed es
  unfolding run_all
  run_all-settled [] q = sym (append-nil q.queue)
  run_all-settled (pushes t ∷ es) q =
      let (q', first) = push t q in
      rw (settled-append first (run_all es q').1, append_assoc, run_all-settled es q')
        (sym (append_assoc (settled first) q'.queue (pushed es))
          ∙ ap (λ l. l ++ pushed es) (push-settled t q)
          ∙ append_assoc q.queue (t ∷ []) (pushed es))
  run_all-settled (settles ∷ es) q =
      let (q', first) = settle q in
      rw (settled-append first (run_all es q').1, append_assoc, run_all-settled es q')
        (sym (append_assoc (settled first) q'.queue (pushed es))
          ∙ ap (λ l. l ++ pushed es) (settle-settled q))

  -- In any history the tasks that were started or dropped, in the order in which that happened, and
  -- after them those that wait, are exactly the tasks that were pushed, in their order.
  pub run_all-create :
      (es : List (Event A))
      → settled (run_all es create).1 ++ (run_all es create).0.queue ≡ pushed es
  unfolding create
  run_all-create es = run_all-settled es create
