-- ===== src/Policy/Pending/Picks.antt =====
-- Which entry of a mint is picked (`shiftByMint`), and what is left of the list.
use mathlib.Core.Option.{some-injective}
use trenches.Base.{
  ℕ, ◌≤◌, ◌<◌, ◌≡◌, ◌≢◌, refl, sym, ap, ◌∙◌, subst, ◌⊎◌, ◌↔◌, inl, inr, List, [], ◌∷◌, ◌++◌, Option,
  none, some, leb, arith, Bool-cases, All,
}
use trenches.Policy.Pending.{PendingSelectionEntry, split_first, pick}
use trenches.Policy.Pending.Indexes.{In, Distinct}

module _ {P : Type 0} where
  -- The first entry that meets the deadline, or else the first of all.
  abbrev IsLate : ℕ → PendingSelectionEntry P → Type 0
  IsLate deadline x = deadline < x.created_at

  pub data IsFirstInTime (deadline : ℕ) (l : List (PendingSelectionEntry P))
      (e : PendingSelectionEntry P) (rest : List (PendingSelectionEntry P)) : Type 0 where
    in_time :
        (pre post : List (PendingSelectionEntry P))
        → l ≡ pre ++ (e ∷ post)
        → rest ≡ pre ++ post
        → All (IsLate deadline) pre
        → e.created_at ≤ deadline
        → IsFirstInTime deadline l e rest

  abbrev Splits :
      ℕ
      → List (PendingSelectionEntry P)
      → Option (PendingSelectionEntry P × List (PendingSelectionEntry P))
      → Type 0
  Splits deadline l none = All (IsLate deadline) l
  Splits deadline l (some (e, rest)) = IsFirstInTime deadline l e rest

  Splits-cons :
      (deadline : ℕ) (e : PendingSelectionEntry P) (l : List (PendingSelectionEntry P))
      (r : Option (PendingSelectionEntry P × List (PendingSelectionEntry P)))
      → deadline < e.created_at
      → Splits deadline l r
      → Splits deadline (e ∷ l) (elim r [ none ↦ none | some (x, rest) ↦ some (x, e ∷ rest) ])
  Splits-cons deadline e l none late k = (late, k)
  Splits-cons deadline e l (some (x, rest)) late (in_time pre post a b h t) =
      in_time (e ∷ pre) post (ap (◌∷◌ e) a) (ap (◌∷◌ e) b) (late, h) t

  split_first-Splits :
      (deadline : ℕ) (l : List (PendingSelectionEntry P))
      → Splits deadline l (split_first deadline l)
  unfolding split_first
  split_first-Splits deadline [] = tt
  split_first-Splits deadline (e ∷ l) = elim (Bool-cases (leb e.created_at deadline)) [
    | inl h ↦ rw h (in_time [] l refl refl tt (ground arith))
    | inr h ↦ rw h (
        Splits-cons deadline e l (split_first deadline l) (ground arith)
          (split_first-Splits deadline l))
  ]

  -- `pick` takes the first entry that was created by the deadline, or else the first of all.
  abbrev pub Picks :
      ℕ
      → List (PendingSelectionEntry P)
      → PendingSelectionEntry P
      → List (PendingSelectionEntry P)
      → Type 0
  Picks deadline l e rest =
      IsFirstInTime deadline l e rest ⊎ ((l ≡ e ∷ rest) × All (IsLate deadline) l)

  split-Picks :
      (deadline : ℕ) (x : PendingSelectionEntry P) (l : List (PendingSelectionEntry P))
      (r : Option (PendingSelectionEntry P × List (PendingSelectionEntry P)))
      (picked : PendingSelectionEntry P × List (PendingSelectionEntry P))
      → Splits deadline (x ∷ l) r
      → (elim r [ none ↦ some (x, l) | some z ↦ some z ]) ≡ some picked
      → Picks deadline (x ∷ l) picked.0 picked.1
  split-Picks deadline x l none picked k p =
      subst (λ r. Picks deadline (x ∷ l) r.0 r.1) (some-injective _ _ p) (inr (refl, k))
  split-Picks deadline x l (some y) picked k p =
      subst (λ r. Picks deadline (x ∷ l) r.0 r.1) (some-injective _ _ p) (inl k)

  pub pick-Picks :
      (deadline : ℕ) (l : List (PendingSelectionEntry P))
      (picked : PendingSelectionEntry P × List (PendingSelectionEntry P))
      → pick deadline l ≡ some picked
      → Picks deadline l picked.0 picked.1
  unfolding pick
  pick-Picks deadline [] picked h = cc
  pick-Picks deadline (x ∷ l) picked h =
      split-Picks deadline x l (split_first deadline (x ∷ l)) picked
        (split_first-Splits deadline (x ∷ l)) h

  -- One entry cut out of a list.
  In-cut :
      (pre post : List (PendingSelectionEntry P)) (e : PendingSelectionEntry P)
      → In e (pre ++ (e ∷ post))
  In-cut [] post e = inl refl
  In-cut (y ∷ pre) post e = inr (In-cut pre post e)

  In-cut_rest :
      (pre post : List (PendingSelectionEntry P)) (e x : PendingSelectionEntry P)
      → Distinct (pre ++ (e ∷ post))
      → In x (pre ++ post) ↔ (In x (pre ++ (e ∷ post)) × (x.order_id ≢ e.order_id))
  In-cut_rest [] post e x d = (
    (λ h. (inr h, d.0 x h)),
    (λ h. elim h.0 [ inl p ↦ absurd (h.1 (ap (λ w. w.order_id) p)) | inr k ↦ k ]),
  )
  In-cut_rest (y ∷ pre) post e x d =
      let rec = In-cut_rest pre post e x d.1 in
      (
        (λ h. elim h [
          | inl p ↦ (inl p, λ r. d.0 e (In-cut pre post e) (sym (sym (ap (λ w. w.order_id) p) ∙ r)))
          | inr k ↦ (inr (rec.0 k).0, (rec.0 k).1)
        ]),
        (λ h. elim h.0 [ inl p ↦ inl p | inr k ↦ inr (rec.1 (k, h.1)) ]),
      )

  Distinct-cut :
      (pre post : List (PendingSelectionEntry P)) (e : PendingSelectionEntry P)
      → Distinct (pre ++ (e ∷ post))
      → Distinct (pre ++ post)
  Distinct-cut [] post e d = d.1
  Distinct-cut (y ∷ pre) post e d =
      ((λ x h. d.0 x ((In-cut_rest pre post e x d.1).0 h).0), Distinct-cut pre post e d.1)

  abbrev pub IsCut :
      List (PendingSelectionEntry P)
      → PendingSelectionEntry P
      → List (PendingSelectionEntry P)
      → Type 0
  IsCut l e rest =
      In e l
      × ((x : PendingSelectionEntry P) → In x rest ↔ (In x l × (x.order_id ≢ e.order_id)))
      × Distinct rest

  split-IsCut :
      (pre post l rest : List (PendingSelectionEntry P)) (e : PendingSelectionEntry P)
      → l ≡ pre ++ (e ∷ post)
      → rest ≡ pre ++ post
      → Distinct l
      → IsCut l e rest
  split-IsCut pre post l rest e p r d =
      let d' = subst Distinct p d in
      rw (p, r) (In-cut pre post e, (λ x. In-cut_rest pre post e x d'), Distinct-cut pre post e d')

  pub Picks-IsCut :
      (deadline : ℕ) (l : List (PendingSelectionEntry P)) (e : PendingSelectionEntry P)
      (rest : List (PendingSelectionEntry P))
      → Picks deadline l e rest
      → Distinct l
      → IsCut l e rest
  Picks-IsCut deadline l e rest (inl (in_time pre post a b h t)) d =
      split-IsCut pre post l rest e a b d
  Picks-IsCut deadline l e rest (inr (a, h)) d = split-IsCut [] rest l rest e a refl d
