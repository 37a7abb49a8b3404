-- ===== src/Policy/Pending/Consume.antt =====
-- A selection that is consumed leaves both indexes.
use trenches.Base.{
  refl, ◌∷◌, ℕ, if_neg, text_discrete, ◌+◌, ◌≡◌, ◌≢◌, sym, ap, ◌∙◌, subst, inl, inr, List, none,
  some, String, arith, Option-cases,
}
use trenches.Base.Dict
use trenches.Base.Dict.{Dict}
use trenches.Policy.Pending.{
  PendingSelectionEntry, PendingSelectionQueue, others, store, remove, take_by_id, pick,
  split_first, shift_by_mint,
}
use trenches.Policy.Pending.Indexes.{In, IsConsistent, In-others, Distinct-others}
use trenches.Policy.Pending.Removal.{without-IsConsistent}
use trenches.Policy.Pending.Picks.{Picks, pick-Picks, Picks-IsCut}

module _ {P : Type 0} where
  pub remove-IsConsistent :
      (q : PendingSelectionQueue P) (e : PendingSelectionEntry P)
      → IsConsistent q
      → Dict.get e.order_id q.by_id ≡ some e
      → IsConsistent (remove e q)
  unfolding remove
  remove-IsConsistent q e c own =
      let (l, found, i) = c.listed e.order_id e own in
      rw (found, remove)
        (without-IsConsistent q c e l (others e.order_id l) found own
          (λ x. In-others e.order_id x l)
          (Distinct-others e.order_id l (c.distinct e.mint l found).0))

  -- Neither index has the order any more.
  pub record IsGone (id : String) (q : PendingSelectionQueue P) : Type 0 where
    pub from_ids : Dict.get id q.by_id ≡ none
    pub from_mints :
        (mint : String) (l : List (PendingSelectionEntry P)) (x : PendingSelectionEntry P)
        → Dict.get mint q.by_mint ≡ some l
        → In x l
        → x.order_id ≢ id

  none-ne-some : {x : PendingSelectionEntry P} → none ≢ some x
  none-ne-some h = cc

  get-none-IsGone :
      (id : String) (q : PendingSelectionQueue P)
      → IsConsistent q
      → Dict.get id q.by_id ≡ none
      → IsGone id q
  get-none-IsGone id q c h = record {
    from_ids = h;
    from_mints = λ mint l x g i p.
        none-ne-some (sym h ∙ ap (λ m. Dict.get m q.by_id) (sym p) ∙ (c.known mint l x g i).1);
  }

  take_by_id-inv :
      (q : PendingSelectionQueue P) (id : String) (e : PendingSelectionEntry P)
      → (take_by_id (some id) q).0 ≡ some e
      → (Dict.get id q.by_id ≡ some e) × ((take_by_id (some id) q).1 ≡ remove e q)
  unfolding take_by_id
  take_by_id-inv q id e h = (ground arith, ground arith)

  by_id-remove :
      (q : PendingSelectionQueue P) (e : PendingSelectionEntry P)
      → (remove e q).by_id ≡ Dict.remove e.order_id q.by_id
  unfolding remove
  by_id-remove q e = ground arith

  -- To take a selection by its order gives that order's selection, and leaves the queue consistent,
  -- with the order in neither index.
  pub take_by_id-IsGone :
      (q : PendingSelectionQueue P) (id : String) (e : PendingSelectionEntry P)
      → IsConsistent q
      → (take_by_id (some id) q).0 ≡ some e
      → let q' = (take_by_id (some id) q).1 in
        (e.order_id ≡ id) × (Dict.get id q.by_id ≡ some e) × IsConsistent q' × IsGone id q'
  take_by_id-IsGone q id e c h =
      let (own, after) = take_by_id-inv q id e h in
      let key = c.keyed id e own in
      let c' = remove-IsConsistent q e c (ap (λ m. Dict.get m q.by_id) key ∙ own) in
      let gone =
        get-none-IsGone e.order_id (remove e q) c'
          (ap (Dict.get e.order_id) (by_id-remove q e) ∙ Dict.get-remove_self e.order_id q.by_id) in
      (
        key,
        own,
        subst IsConsistent (sym after) c',
        subst (λ m. IsGone m (take_by_id (some id) q).1) key
            (subst (IsGone e.order_id) (sym after) gone),
      )

  -- What `shift_by_mint` does with the entries that it finds under the mint.
  shift_by_mint-picked :
      (q : PendingSelectionQueue P) (mint : String) (exec_ts : ℕ) (e : PendingSelectionEntry P)
      (l rest : List (PendingSelectionEntry P))
      → mint ≢ ""
      → Dict.get mint q.by_mint ≡ some l
      → pick (exec_ts + q.mint_match_jitter_ms) l ≡ some (e, rest)
      → shift_by_mint (some mint) exec_ts q ≡ (
        some e,
        record q { by_id = Dict.remove e.order_id q.by_id; by_mint = store mint rest q.by_mint },
      )
  unfolding shift_by_mint
  shift_by_mint-picked q mint exec_ts e l rest named m n =
      rw (shift_by_mint, m, n) (if_neg (text_discrete mint "") named _ _)

  -- A selection that waits under a mint is found.
  pick-total :
      (deadline : ℕ) (x : PendingSelectionEntry P) (l : List (PendingSelectionEntry P))
      → (e : PendingSelectionEntry P) × (rest : List (PendingSelectionEntry P)) × (pick deadline
            (x ∷ l)
          ≡ some (e, rest))
  unfolding pick
  pick-total deadline x l = elim (Option-cases (split_first deadline (x ∷ l))) [
    | inl h ↦ (x, l, rw (pick, h) refl)
    | inr ((e, rest), h) ↦ (e, rest, rw (pick, h) refl)
  ]

  -- To take a selection by a mint, not the empty text, under which some wait gives the first of these that was created by
  -- the execution time and the jitter, or else the first of all, and leaves the queue consistent,
  -- with the selection's order in neither index.
  pub shift_by_mint-IsGone :
      (q : PendingSelectionQueue P) (mint : String) (exec_ts : ℕ) (x : PendingSelectionEntry P)
      (l : List (PendingSelectionEntry P))
      → IsConsistent q
      → mint ≢ ""
      → Dict.get mint q.by_mint ≡ some (x ∷ l)
      → let (found, q') = shift_by_mint (some mint) exec_ts q in
        (e : PendingSelectionEntry P) × (rest : List (PendingSelectionEntry P)) × (found ≡ some e)
        × (e.mint ≡ mint)
        × Picks (exec_ts + q.mint_match_jitter_ms) (x ∷ l) e rest
        × IsConsistent q'
        × IsGone e.order_id q'
  shift_by_mint-IsGone q mint exec_ts x l c named found =
      let (e, rest, picked) = pick-total (exec_ts + q.mint_match_jitter_ms) x l in
      let after = shift_by_mint-picked q mint exec_ts e (x ∷ l) rest named found picked in
      let picks = pick-Picks (exec_ts + q.mint_match_jitter_ms) (x ∷ l) (e, rest) picked in
      let (i, left, apart) = Picks-IsCut _ (x ∷ l) e rest picks (c.distinct mint (x ∷ l) found).0 in
      let (m, own) = c.known mint (x ∷ l) e found i in
      let found' = ap (λ k. Dict.get k q.by_mint) m ∙ found in
      let without' = λ (k : String). record q {
        by_id = Dict.remove e.order_id q.by_id;
        by_mint = store k rest q.by_mint;
      } in
      let c' =
        subst (λ k. IsConsistent (without' k)) m
          (without-IsConsistent q c e (x ∷ l) rest found' own left apart) in
      let gone =
        get-none-IsGone e.order_id (without' mint) c' (Dict.get-remove_self e.order_id q.by_id) in
      (
        e,
        rest,
        ap (λ r. r.0) after,
        m,
        picks,
        subst IsConsistent (sym (ap (λ r. r.1) after)) c',
        subst (IsGone e.order_id) (sym (ap (λ r. r.1) after)) gone,
      )
