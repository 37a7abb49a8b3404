-- ===== src/Policy/Pending/Expiry.antt =====
-- What `prune` removes and reports.
use trenches.Base.{
  ℕ, ◌+◌, ◌≡◌, ◌≢◌, refl, ap, ◌∙◌, List, [], ◌∷◌, Option, none, some, String, leb, if◌then◌else◌,
  text_discrete, arith, if_pos, if_neg, Bool-cases, inl, inr,
}
use trenches.Base.Dict
use trenches.Base.Dict.{Dict, IsDict}
use trenches.Policy.Pending.{
  PendingSelectionEntry, PendingSelectionQueue, remove, is_expired, prune_all, prune,
}
use trenches.Policy.Pending.Indexes.{IsConsistent}
use trenches.Policy.Pending.Consume.{remove-IsConsistent}

module _ {P : Type 0} where
  remove_lem :
      (q : PendingSelectionQueue P) (e : PendingSelectionEntry P)
      → ((remove e q).by_id ≡ Dict.remove e.order_id q.by_id)
        × ((remove e q).expiry_ms ≡ q.expiry_ms)
  unfolding remove
  remove_lem q e = (ground arith, ground arith)

  abbrev pub unless_expired :
      ℕ
      → PendingSelectionQueue P
      → Option (PendingSelectionEntry P)
      → Option (PendingSelectionEntry P)
  unless_expired now q none = none
  unless_expired now q (some e) = if is_expired now q e then none else some e

  abbrev masked :
      Option (PendingSelectionEntry P)
      → ℕ
      → PendingSelectionQueue P
      → Option (PendingSelectionEntry P)
      → Option (PendingSelectionEntry P)
  masked none now q o = o
  masked (some e) now q o = if is_expired now q e then none else o

  -- Each entry stands under its own order.
  abbrev IsKeyed : Dict (PendingSelectionEntry P) → Type 0
  IsKeyed [] = Unit
  IsKeyed ((j, e) ∷ m) = (e.order_id ≡ j) × IsKeyed m

  key_ne :
      (j i : String) (x : PendingSelectionEntry P) (m : Dict (PendingSelectionEntry P))
      → Dict.get j m ≡ none
      → Dict.get i m ≡ some x
      → j ≢ i
  key_ne j i x m n h p = cc (ap (λ w. Dict.get w m) p)

  get-IsKeyed :
      (m : Dict (PendingSelectionEntry P))
      → IsDict m
      → ((j : String) (e : PendingSelectionEntry P) → Dict.get j m ≡ some e → e.order_id ≡ j)
      → IsKeyed m
  unfolding Dict.get
  get-IsKeyed [] d k = tt
  get-IsKeyed ((j, e) ∷ m) d k = (
    k j e (if_pos (text_discrete j j) refl _ _),
    get-IsKeyed m d.1 (λ i x h. k i x (if_neg (text_discrete j i) (key_ne j i x m d.0 h) _ _ ∙ h)),
  )

  prune_all-by_id :
      (now : ℕ) (m : Dict (PendingSelectionEntry P)) (q : PendingSelectionQueue P) (id : String)
      → IsDict m
      → IsKeyed m
      → Dict.get id (prune_all now m q).1.by_id ≡ masked (Dict.get id m) now q (Dict.get id q.by_id)
  unfolding prune_all Dict.get
  prune_all-by_id now [] q id d k = refl
  prune_all-by_id now ((j, e) ∷ m) q id d k = ground (
    arith,
    prune_all-by_id now m q id d.1 k.1,
    prune_all-by_id now m (remove e q) id d.1 k.1,
    remove_lem q e,
    ap (Dict.get id) (remove_lem q e).0,
    Dict.get-remove e.order_id id q.by_id,
  )

  -- The expired entries of a map, in its order.
  unfoldable pub expired_of :
      ℕ → ℕ → Dict (PendingSelectionEntry P) → List (PendingSelectionEntry P)
  expired_of now expiry_ms [] = []
  expired_of now expiry_ms ((j, e) ∷ m) =
      if leb (e.created_at + expiry_ms) now
      then e ∷ expired_of now expiry_ms m
      else expired_of now expiry_ms m

  prune_all-expired :
      (now : ℕ) (m : Dict (PendingSelectionEntry P)) (q : PendingSelectionQueue P)
      → (prune_all now m q).0 ≡ expired_of now q.expiry_ms m
  unfolding prune_all expired_of
  prune_all-expired now [] q = refl
  prune_all-expired now ((j, e) ∷ m) q = ground (
    arith,
    prune_all-expired now m q,
    prune_all-expired now m (remove e q),
    remove_lem q e,
    ap (λ t. expired_of now t m) (remove_lem q e).1,
  )

  -- The entries still to be looked at are pending.
  abbrev ArePending : Dict (PendingSelectionEntry P) → PendingSelectionQueue P → Type 0
  ArePending [] q = Unit
  ArePending ((j, e) ∷ m) q = (Dict.get e.order_id q.by_id ≡ some e) × ArePending m q

  remove-ArePending :
      (j : String) (m : Dict (PendingSelectionEntry P)) (q : PendingSelectionQueue P)
      (e : PendingSelectionEntry P)
      → e.order_id ≡ j
      → Dict.get j m ≡ none
      → IsKeyed m
      → ArePending m q
      → ArePending m (remove e q)
  unfolding Dict.get
  remove-ArePending j [] q e p n k a = tt
  remove-ArePending j ((i, x) ∷ m) q e p n k a = ground (
    arith,
    remove-ArePending j m q e p,
    remove_lem q e,
    ap (Dict.get x.order_id) (remove_lem q e).0,
    Dict.get-remove e.order_id x.order_id q.by_id,
  )

  prune_all-IsConsistent :
      (now : ℕ) (m : Dict (PendingSelectionEntry P)) (q : PendingSelectionQueue P)
      → IsDict m
      → IsKeyed m
      → ArePending m q
      → IsConsistent q
      → IsConsistent (prune_all now m q).1
  unfolding prune_all
  prune_all-IsConsistent now [] q d k a c = c
  prune_all-IsConsistent now ((j, e) ∷ m) q d k a c = elim (Bool-cases (is_expired now q e)) [
    | inl h ↦ rw h (
        prune_all-IsConsistent now m (remove e q) d.1 k.1
          (remove-ArePending j m q e k.0 d.0 k.1 a.1) (remove-IsConsistent q e c a.0))
    | inr h ↦ rw h (prune_all-IsConsistent now m q d.1 k.1 a.1 c)
  ]

  get-ArePending :
      (m : Dict (PendingSelectionEntry P)) (q : PendingSelectionQueue P)
      → IsDict m
      → IsKeyed m
      → ((j : String) (e : PendingSelectionEntry P)
          → Dict.get j m ≡ some e
          → Dict.get j q.by_id ≡ some e)
      → ArePending m q
  unfolding Dict.get
  get-ArePending [] q d k h = tt
  get-ArePending ((j, e) ∷ m) q d k h = (
    ap (λ w. Dict.get w q.by_id) k.0 ∙ h j e (if_pos (text_discrete j j) refl _ _),
    get-ArePending m q d.1 k.1
        (λ i x g. h i x (if_neg (text_discrete j i) (key_ne j i x m d.0 g) _ _ ∙ g)),
  )

  -- `prune` reports exactly the entries whose time is over, in the order in which they were put in,
  -- removes them, keeps every other entry, and leaves the two indexes consistent.
  pub prune-IsConsistent :
      (now : ℕ) (q : PendingSelectionQueue P)
      → IsDict q.by_id
      → IsConsistent q
      → ((prune now q).0 ≡ expired_of now q.expiry_ms q.by_id)
        × ((id : String)
            → Dict.get id (prune now q).1.by_id ≡ unless_expired now q (Dict.get id q.by_id))
        × IsConsistent (prune now q).1
  unfolding prune
  prune-IsConsistent now q d c =
      let k = get-IsKeyed q.by_id d c.keyed in
      (
        prune_all-expired now q.by_id q,
        (λ id. ground (arith, prune_all-by_id now q.by_id q id d k)),
        prune_all-IsConsistent now q.by_id q d k (get-ArePending q.by_id q d k (λ j e h. h)) c,
      )
