-- ===== src/Policy/Pending/Examples.antt =====
-- A queue with one selection.
use trenches.Base.{ℕ, ◌+◌, ◌≡◌, refl, List, [], ◌∷◌, some, String, text_discrete}
use trenches.Base.Dict
use trenches.Policy.Pending.{
  PendingSelectionEntry, PendingSelectionQueue, enqueue, take_by_id, shift_by_mint, prune,
}
use trenches.Policy.Pending.Indexes.{IsConsistent}
use trenches.Policy.Pending.Enqueue.{enqueue-IsConsistent}
use trenches.Policy.Pending.Picks.{Picks}
use trenches.Policy.Pending.Consume.{IsGone, take_by_id-IsGone, shift_by_mint-IsGone}
use trenches.Policy.Pending.Expiry.{expired_of, unless_expired, prune-IsConsistent}

abbrev entry : PendingSelectionEntry ℕ
entry = record { action_id = "a"; payload = 3; created_at = 1000; mint = "m"; order_id = "o" }

abbrev empty_queue : PendingSelectionQueue ℕ
empty_queue = record { expiry_ms = 300_000; mint_match_jitter_ms = 50; by_id = []; by_mint = [] }

empty_queue-IsConsistent : IsConsistent empty_queue
unfolding Dict.get
empty_queue-IsConsistent = record {
  keyed = λ id e h. cc;
  listed = λ id e h. cc;
  known = λ mint l e h i. cc;
  distinct = λ mint l h. cc;
}

abbrev queue_of_one : PendingSelectionQueue ℕ
queue_of_one = record {
  expiry_ms = 300_000;
  mint_match_jitter_ms = 50;
  by_id = ("o", entry) ∷ [];
  by_mint = ("m", entry ∷ []) ∷ [];
}

queue_of_one-IsConsistent : IsConsistent queue_of_one
unfolding enqueue Dict.get Dict.put
queue_of_one-IsConsistent = enqueue-IsConsistent empty_queue empty_queue-IsConsistent entry refl

take_by_id-IsGone_example :
    let q' = (take_by_id (some "o") queue_of_one).1 in
    (entry.order_id ≡ "o")
    × (Dict.get "o" queue_of_one.by_id ≡ some entry)
    × IsConsistent q'
    × IsGone "o" q'
unfolding take_by_id Dict.get text_discrete
take_by_id-IsGone_example = take_by_id-IsGone queue_of_one "o" entry queue_of_one-IsConsistent refl

-- The selection is too young at that time, and is taken all the same.
shift_by_mint-IsGone_example :
    let (found, q') = shift_by_mint (some "m") 900 queue_of_one in
    (e : PendingSelectionEntry ℕ) × (rest : List (PendingSelectionEntry ℕ)) × (found ≡ some e)
    × (e.mint ≡ "m")
    × Picks (900 + 50) (entry ∷ []) e rest
    × IsConsistent q'
    × IsGone e.order_id q'
unfolding Dict.get text_discrete
shift_by_mint-IsGone_example =
    shift_by_mint-IsGone queue_of_one "m" 900 entry [] queue_of_one-IsConsistent (λ e. cc) refl

prune-IsConsistent_example :
    ((prune 400_000 queue_of_one).0 ≡ entry ∷ [])
    × ((id : String)
        → Dict.get id (prune 400_000 queue_of_one).1.by_id
          ≡ unless_expired 400_000 queue_of_one (Dict.get id queue_of_one.by_id))
    × IsConsistent (prune 400_000 queue_of_one).1
unfolding Dict.get expired_of
prune-IsConsistent_example =
    prune-IsConsistent 400_000 queue_of_one (refl, tt) queue_of_one-IsConsistent
