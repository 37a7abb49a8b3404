-- ===== src/Policy/Pending/Enqueue.antt =====
-- A new entry goes into both indexes.
use mathlib.Core.Option.{some-injective}
use trenches.Base.{
  ◌≡◌, ◌≢◌, refl, sym, ap, ◌∙◌, subst, ◌⊎◌, inl, inr, List, [], ◌∷◌, Option, none, some, String,
  text_discrete,
}
use trenches.Base.Dict
use trenches.Base.Dict.{Dict}
use trenches.Policy.Pending.{PendingSelectionEntry, PendingSelectionQueue, enqueue, with_last}
use trenches.Policy.Pending.Indexes.{
  In, Distinct, IsConsistent, In-snoc, In-snoc_old, In-snoc_new, Distinct-snoc,
}

module _ {P : Type 0} where
  In-with_last :
      (x e : PendingSelectionEntry P) (o : Option (List (PendingSelectionEntry P)))
      → In x (with_last e o)
      → ((l : List (PendingSelectionEntry P)) × (o ≡ some l) × In x l) ⊎ (x ≡ e)
  In-with_last x e none h = elim h [ inl p ↦ inr p | inr n ↦ absurd n ]
  In-with_last x e (some l) h = elim (In-snoc x e l h) [ inl k ↦ inl (l, refl, k) | inr p ↦ inr p ]

  In-with_last_old :
      (x e : PendingSelectionEntry P) (o : Option (List (PendingSelectionEntry P)))
      (l : List (PendingSelectionEntry P))
      → o ≡ some l
      → In x l
      → In x (with_last e o)
  In-with_last_old x e none l p h = cc
  In-with_last_old x e (some k) l p h =
      In-snoc_old x e k (subst (In x) (sym (some-injective _ _ p)) h)

  In-with_last_new :
      (e : PendingSelectionEntry P) (o : Option (List (PendingSelectionEntry P)))
      → In e (with_last e o)
  In-with_last_new e none = inl refl
  In-with_last_new e (some l) = In-snoc_new e l

  Distinct-with_last :
      (e : PendingSelectionEntry P) (o : Option (List (PendingSelectionEntry P)))
      → ((l : List (PendingSelectionEntry P))
          → o ≡ some l
          → Distinct l × ((x : PendingSelectionEntry P) → In x l → x.order_id ≢ e.order_id))
      → Distinct (with_last e o)
  Distinct-with_last e none h = ((λ x i. absurd i), tt)
  Distinct-with_last e (some l) h = Distinct-snoc e l (h l refl).0 (h l refl).1

  with_last-ne-nil :
      (e : PendingSelectionEntry P) (o : Option (List (PendingSelectionEntry P)))
      → with_last e o ≢ []
  with_last-ne-nil e none h = cc
  with_last-ne-nil e (some []) h = cc
  with_last-ne-nil e (some (x ∷ l)) h = cc

  -- An entry whose order is not pending.
  module _ (q : PendingSelectionQueue P) (c : IsConsistent q) (e : PendingSelectionEntry P)
      (fresh : Dict.get e.order_id q.by_id ≡ none) where
    queue : List (PendingSelectionEntry P)
    queue = with_last e (Dict.get e.mint q.by_mint)

    other_order :
        (x : PendingSelectionEntry P)
        → Dict.get x.order_id q.by_id ≡ some x
        → e.order_id ≢ x.order_id
    other_order x h p = cc (ap (λ m. Dict.get m q.by_id) p)

    listed' :
        (id : String) (x : PendingSelectionEntry P)
        → Dict.get id (Dict.put e.order_id e q.by_id) ≡ some x
        → (l : List (PendingSelectionEntry P)) × (Dict.get x.mint (Dict.put e.mint queue q.by_mint)
            ≡ some l)
          × In x l
    unfolding queue
    listed' id x h = elim (text_discrete e.order_id id) [
      | yes p ↦
          let same : e ≡ x = some-injective _ _ (
            sym (Dict.get-put_self e.order_id e q.by_id)
            ∙ ap (λ m. Dict.get m (Dict.put e.order_id e q.by_id)) p
            ∙ h) in
          (
            queue,
            ap (λ (w : PendingSelectionEntry P). Dict.get w.mint (Dict.put e.mint queue q.by_mint))
                  (sym same)
                ∙ Dict.get-put_self e.mint queue q.by_mint,
            subst (λ w. In w queue) same (In-with_last_new e (Dict.get e.mint q.by_mint)),
          )
      | no p ↦
          let (l, g, i) = c.listed id x (sym (Dict.get-put_ne e.order_id id e q.by_id p) ∙ h) in
          elim (text_discrete e.mint x.mint) [
            | yes r ↦ (
              queue,
              ap (λ m. Dict.get m (Dict.put e.mint queue q.by_mint)) (sym r)
                  ∙ Dict.get-put_self e.mint queue q.by_mint,
              In-with_last_old x e (Dict.get e.mint q.by_mint) l
                  (ap (λ m. Dict.get m q.by_mint) r ∙ g) i,
            )
            | no r ↦ (l, Dict.get-put_ne e.mint x.mint queue q.by_mint r ∙ g, i)
          ]
    ]

    old-known :
        (x : PendingSelectionEntry P) (mint : String) (l : List (PendingSelectionEntry P))
        → Dict.get mint q.by_mint ≡ some l
        → In x l
        → (x.mint ≡ mint)
          × (Dict.get x.order_id (Dict.put e.order_id e q.by_id) ≡ some x)
          × (x.order_id ≢ e.order_id)
    old-known x mint l g i =
        let (a, b) = c.known mint l x g i in
        (
          a,
          Dict.get-put_ne e.order_id x.order_id e q.by_id (other_order x b) ∙ b,
          λ r. other_order x b (sym r),
        )

    known' :
        (mint : String) (l : List (PendingSelectionEntry P)) (x : PendingSelectionEntry P)
        → Dict.get mint (Dict.put e.mint queue q.by_mint) ≡ some l
        → In x l
        → (x.mint ≡ mint) × (Dict.get x.order_id (Dict.put e.order_id e q.by_id) ≡ some x)
    unfolding queue
    known' mint l x g i = elim (text_discrete e.mint mint) [
      | yes p ↦
          let same : queue ≡ l = some-injective _ _ (
            sym (Dict.get-put_self e.mint queue q.by_mint)
            ∙ ap (λ m. Dict.get m (Dict.put e.mint queue q.by_mint)) p
            ∙ g) in
          elim (In-with_last x e (Dict.get e.mint q.by_mint) (subst (In x) (sym same) i)) [
            | inl (k, gk, ik) ↦ let (a, b, n) = old-known x e.mint k gk ik in (a ∙ p, b)
            | inr r ↦ (
              ap (λ (w : PendingSelectionEntry P). w.mint) r ∙ p,
              subst
                  (λ (w : PendingSelectionEntry P).
                    Dict.get w.order_id (Dict.put e.order_id e q.by_id) ≡ some w)
                  (sym r) (Dict.get-put_self e.order_id e q.by_id),
            )
          ]
      | no p ↦
          let (a, b, n) =
            old-known x mint l (sym (Dict.get-put_ne e.mint mint queue q.by_mint p) ∙ g) i in
          (a, b)
    ]

    distinct' :
        (mint : String) (l : List (PendingSelectionEntry P))
        → Dict.get mint (Dict.put e.mint queue q.by_mint) ≡ some l
        → Distinct l × (l ≢ [])
    unfolding queue
    distinct' mint l g = elim (text_discrete e.mint mint) [
      | yes p ↦
          let same : queue ≡ l = some-injective _ _ (
            sym (Dict.get-put_self e.mint queue q.by_mint)
            ∙ ap (λ m. Dict.get m (Dict.put e.mint queue q.by_mint)) p
            ∙ g) in
          (
            subst Distinct same (
                Distinct-with_last e (Dict.get e.mint q.by_mint)
                  (λ k gk. ((c.distinct e.mint k gk).0, λ x i. (old-known x e.mint k gk i).2))),
            λ z. with_last-ne-nil e (Dict.get e.mint q.by_mint) (same ∙ z),
          )
      | no p ↦ c.distinct mint l (sym (Dict.get-put_ne e.mint mint queue q.by_mint p) ∙ g)
    ]

    pub enqueue-IsConsistent : IsConsistent (enqueue e q)
    unfolding enqueue queue
    enqueue-IsConsistent = record {
      keyed = λ id x h. elim (text_discrete e.order_id id) [
        | yes p ↦
            ap (λ (w : PendingSelectionEntry P). w.order_id)
              (sym (
                some-injective _ _ (
                  sym (Dict.get-put_self e.order_id e q.by_id)
                  ∙ ap (λ m. Dict.get m (Dict.put e.order_id e q.by_id)) p
                  ∙ h)))
            ∙ p
        | no p ↦ c.keyed id x (sym (Dict.get-put_ne e.order_id id e q.by_id p) ∙ h)
      ];
      listed = listed';
      known = known';
      distinct = distinct';
    }
