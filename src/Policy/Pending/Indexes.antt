-- ===== src/Policy/Pending/Indexes.antt =====
-- The two indexes of the queue hold the same entries.
use trenches.Base.{
  ◌≡◌, ◌≢◌, refl, sym, ap, ◌∙◌, ◌⊎◌, ◌↔◌, inl, inr, List, [], ◌∷◌, ◌++◌, some, String,
  text_discrete, arith,
}
use trenches.Base.Dict
use trenches.Base.Dict.{Dict}
use trenches.Policy.Pending.{PendingSelectionEntry, PendingSelectionQueue, others}

module _ {P : Type 0} where
  abbrev pub In : PendingSelectionEntry P → List (PendingSelectionEntry P) → Type 0
  In e [] = ⊥
  In e (x ∷ l) = (e ≡ x) ⊎ In e l

  -- No order stands twice in the queue of a mint.
  abbrev pub Distinct : List (PendingSelectionEntry P) → Type 0
  Distinct [] = Unit
  Distinct (e ∷ l) = ((x : PendingSelectionEntry P) → In x l → x.order_id ≢ e.order_id) × Distinct l

  pub record IsConsistent (q : PendingSelectionQueue P) : Type 0 where
    pub keyed :
        (id : String) (e : PendingSelectionEntry P) → Dict.get id q.by_id ≡ some e → e.order_id ≡ id
    pub listed :
        (id : String) (e : PendingSelectionEntry P)
        → Dict.get id q.by_id ≡ some e
        → (l : List (PendingSelectionEntry P)) × (Dict.get e.mint q.by_mint ≡ some l) × In e l
    pub known :
        (mint : String) (l : List (PendingSelectionEntry P)) (e : PendingSelectionEntry P)
        → Dict.get mint q.by_mint ≡ some l
        → In e l
        → (e.mint ≡ mint) × (Dict.get e.order_id q.by_id ≡ some e)
    pub distinct :
        (mint : String) (l : List (PendingSelectionEntry P))
        → Dict.get mint q.by_mint ≡ some l
        → Distinct l × (l ≢ [])

  pub In-snoc :
      (e x : PendingSelectionEntry P) (l : List (PendingSelectionEntry P))
      → In e (l ++ (x ∷ []))
      → In e l ⊎ (e ≡ x)
  In-snoc e x [] h = elim h [ inl p ↦ inr p | inr n ↦ absurd n ]
  In-snoc e x (y ∷ l) (inl h) = inl (inl h)
  In-snoc e x (y ∷ l) (inr h) = elim (In-snoc e x l h) [ inl k ↦ inl (inr k) | inr k ↦ inr k ]

  pub In-snoc_old :
      (e x : PendingSelectionEntry P) (l : List (PendingSelectionEntry P))
      → In e l
      → In e (l ++ (x ∷ []))
  In-snoc_old e x [] h = absurd h
  In-snoc_old e x (y ∷ l) (inl h) = inl h
  In-snoc_old e x (y ∷ l) (inr h) = inr (In-snoc_old e x l h)

  pub In-snoc_new :
      (x : PendingSelectionEntry P) (l : List (PendingSelectionEntry P)) → In x (l ++ (x ∷ []))
  In-snoc_new x [] = inl refl
  In-snoc_new x (y ∷ l) = inr (In-snoc_new x l)

  pub Distinct-snoc :
      (x : PendingSelectionEntry P) (l : List (PendingSelectionEntry P))
      → Distinct l
      → ((y : PendingSelectionEntry P) → In y l → y.order_id ≢ x.order_id)
      → Distinct (l ++ (x ∷ []))
  Distinct-snoc x [] d n = ((λ y h. absurd h), tt)
  Distinct-snoc x (z ∷ l) d n = (
    (λ y h. elim (In-snoc y x l h) [
      | inl old ↦ d.0 y old
      | inr e ↦ λ p. n z (inl refl) (sym p ∙ ap (λ w. w.order_id) e)
    ]),
    Distinct-snoc x l d.1 (λ y h. n y (inr h)),
  )

  others-yes :
      (id : String) (x : PendingSelectionEntry P) (l : List (PendingSelectionEntry P))
      → x.order_id ≡ id
      → others id (x ∷ l) ≡ others id l
  others-yes id x l p = ground arith

  others-no :
      (id : String) (x : PendingSelectionEntry P) (l : List (PendingSelectionEntry P))
      → x.order_id ≢ id
      → others id (x ∷ l) ≡ x ∷ others id l
  others-no id x l p = ground arith

  -- Exactly the entries of other orders stay.
  pub In-others :
      (id : String) (e : PendingSelectionEntry P) (l : List (PendingSelectionEntry P))
      → In e (others id l) ↔ (In e l × (e.order_id ≢ id))
  In-others id e [] = ((λ h. absurd h), (λ h. absurd h.0))
  In-others id e (x ∷ l) = elim (text_discrete x.order_id id) [
    | yes p ↦ rw (others-yes id x l p) (
      (λ h. let (k, n) = (In-others id e l).0 h in (inr k, n)),
      (λ h. elim h.0 [
        | inl q ↦ absurd (h.1 (ap (λ w. w.order_id) q ∙ p))
        | inr k ↦ (In-others id e l).1 (k, h.1)
      ]),
    )
    | no p ↦ rw (others-no id x l p) (
      (λ h. elim h [
        | inl q ↦ (inl q, λ r. p (sym (ap (λ w. w.order_id) q) ∙ r))
        | inr k ↦ let (k', n) = (In-others id e l).0 k in (inr k', n)
      ]),
      (λ h. elim h.0 [ inl q ↦ inl q | inr k ↦ inr ((In-others id e l).1 (k, h.1)) ]),
    )
  ]

  pub Distinct-others :
      (id : String) (l : List (PendingSelectionEntry P)) → Distinct l → Distinct (others id l)
  Distinct-others id [] d = tt
  Distinct-others id (x ∷ l) d = elim (text_discrete x.order_id id) [
    | yes p ↦ rw (others-yes id x l p) (Distinct-others id l d.1)
    | no p ↦
        rw (others-no id x l p)
          ((λ y h. d.0 y ((In-others id y l).0 h).0), Distinct-others id l d.1)
  ]
