-- ===== src/Policy/Pending.antt =====
-- services/policy-engine/src/pendingSelections.ts. Times are whole milliseconds. The context and the
-- expected reward of an entry are only carried along: `payload` stands for them.
pub mod Indexes
pub mod Removal
pub mod Enqueue
pub mod Picks
pub mod Consume
pub mod Expiry
mod Examples
use trenches.Base.{
  ℕ, zero, suc, ◌+◌, List, [], ◌∷◌, ◌++◌, Option, none, some, Bool, true, false, not, String, leb,
  ite, length, filter, if◌then◌else◌, text_discrete,
}
use trenches.Base.Dict
use trenches.Base.Dict.{Dict}

pub record PendingSelectionEntry (P : Type 0) : Type 0 where
  pub action_id : String
  pub payload : P
  pub created_at : ℕ
  pub mint : String
  pub order_id : String

pub record PendingSelectionQueue (P : Type 0) : Type 0 where
  pub expiry_ms : ℕ
  pub mint_match_jitter_ms : ℕ
  pub by_id : Dict (PendingSelectionEntry P)
  pub by_mint : Dict (List (PendingSelectionEntry P))

module _ {P : Type 0} where
  abbrev pub with_last :
      PendingSelectionEntry P
      → Option (List (PendingSelectionEntry P))
      → List (PendingSelectionEntry P)
  with_last e none = e ∷ []
  with_last e (some l) = l ++ (e ∷ [])

  unfoldable pub enqueue :
      PendingSelectionEntry P → PendingSelectionQueue P → PendingSelectionQueue P
  enqueue e q = record q {
    by_id = Dict.put e.order_id e q.by_id;
    by_mint = Dict.put e.mint (with_last e (Dict.get e.mint q.by_mint)) q.by_mint;
  }

  -- `queue.filter((item) => item.orderId !== orderId)`.
  abbrev pub others : String → List (PendingSelectionEntry P) → List (PendingSelectionEntry P)
  others id = filter (λ e. ite (text_discrete e.order_id id) false true)

  -- A queue that is empty leaves the map.
  unfoldable pub store :
      String
      → List (PendingSelectionEntry P)
      → Dict (List (PendingSelectionEntry P))
      → Dict (List (PendingSelectionEntry P))
  store mint [] m = Dict.remove mint m
  store mint (e ∷ l) m = Dict.put mint (e ∷ l) m

  unfoldable pub remove :
      PendingSelectionEntry P → PendingSelectionQueue P → PendingSelectionQueue P
  remove e q = elim (Dict.get e.mint q.by_mint) [
    | none ↦ record q { by_id = Dict.remove e.order_id q.by_id }
    | some l ↦ record q {
      by_id = Dict.remove e.order_id q.by_id;
      by_mint = store e.mint (others e.order_id l) q.by_mint;
    }
  ]

  -- `none` stands for `null` and `undefined`; the empty string is refused with them.
  unfoldable pub take_by_id :
      Option String
      → PendingSelectionQueue P
      → Option (PendingSelectionEntry P) × PendingSelectionQueue P
  take_by_id none q = (none, q)
  take_by_id (some id) q =
      ite (text_discrete id "") (none, q)
        (elim (Dict.get id q.by_id) [ none ↦ (none, q) | some e ↦ (some e, remove e q) ])

  -- `findIndex`, and then `splice` of one entry: the entry, and the list without it.
  unfoldable pub split_first :
      ℕ
      → List (PendingSelectionEntry P)
      → Option (PendingSelectionEntry P × List (PendingSelectionEntry P))
  split_first deadline [] = none
  split_first deadline (e ∷ l) =
      if leb e.created_at deadline
      then some (e, l)
      else (elim (split_first deadline l) [ none ↦ none | some (x, rest) ↦ some (x, e ∷ rest) ])

  -- The first entry, where none meets the deadline.
  unfoldable pub pick :
      ℕ
      → List (PendingSelectionEntry P)
      → Option (PendingSelectionEntry P × List (PendingSelectionEntry P))
  unfolding split_first
  pick deadline [] = none
  pick deadline (e ∷ l) = elim (split_first deadline (e ∷ l)) [
    | none ↦ some (e, l)
    | some r ↦ some r
  ]

  unfoldable pub shift_by_mint :
      Option String
      → ℕ
      → PendingSelectionQueue P
      → Option (PendingSelectionEntry P) × PendingSelectionQueue P
  shift_by_mint none exec_ts q = (none, q)
  shift_by_mint (some mint) exec_ts q =
      ite (text_discrete mint "") (none, q)
        (elim (Dict.get mint q.by_mint) [
          | none ↦ (none, q)
          | some l ↦ elim (pick (exec_ts + q.mint_match_jitter_ms) l) [
            | none ↦ (none, q)
            | some (e, rest) ↦ (
              some e,
              record q {
                by_id = Dict.remove e.order_id q.by_id;
                by_mint = store mint rest q.by_mint;
              },
            )
          ]
        ])

  -- `entry.createdAt <= now - expiryMs` is written without the difference.
  abbrev pub is_expired : ℕ → PendingSelectionQueue P → PendingSelectionEntry P → Bool
  is_expired now q e = leb (e.created_at + q.expiry_ms) now

  -- The loop of `prune` over a copy of the values, with the entries that are reported as expired.
  unfoldable pub prune_all :
      ℕ
      → Dict (PendingSelectionEntry P)
      → PendingSelectionQueue P
      → List (PendingSelectionEntry P) × PendingSelectionQueue P
  prune_all now [] q = ([], q)
  prune_all now ((id, e) ∷ m) q =
      let q' = if is_expired now q e then remove e q else q in
      let (expired, last) = prune_all now m q' in
      (if is_expired now q e then e ∷ expired else expired, last)

  unfoldable pub prune :
      ℕ → PendingSelectionQueue P → List (PendingSelectionEntry P) × PendingSelectionQueue P
  unfolding prune_all
  prune now q = prune_all now q.by_id q

  unfoldable pub size : PendingSelectionQueue P → ℕ
  size q = length q.by_id
