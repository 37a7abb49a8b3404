-- ===== src/Policy/Pending/Removal.antt =====
-- An entry that goes from both indexes leaves them together.
use mathlib.Core.Option.{some-injective}
use trenches.Base.{
  ◌≡◌, ◌≢◌, refl, sym, ap, ◌∙◌, subst, ◌↔◌, List, [], ◌∷◌, Option, none, some, String,
  text_discrete, arith,
}
use trenches.Base.Dict
use trenches.Base.Dict.{Dict}
use trenches.Policy.Pending.{PendingSelectionEntry, PendingSelectionQueue, store}
use trenches.Policy.Pending.Indexes.{In, Distinct, IsConsistent}

module _ {P : Type 0} where
  abbrev unless_empty : List (PendingSelectionEntry P) → Option (List (PendingSelectionEntry P))
  unless_empty [] = none
  unless_empty (x ∷ xs) = some (x ∷ xs)

  get-store_self :
      (mint : String) (l : List (PendingSelectionEntry P))
      (m : Dict (List (PendingSelectionEntry P)))
      → Dict.get mint (store mint l m) ≡ unless_empty l
  unfolding store
  get-store_self mint [] m = Dict.get-remove_self mint m
  get-store_self mint (x ∷ xs) m = Dict.get-put_self mint (x ∷ xs) m

  get-store_ne :
      (mint j : String) (l : List (PendingSelectionEntry P))
      (m : Dict (List (PendingSelectionEntry P)))
      → mint ≢ j
      → Dict.get j (store mint l m) ≡ Dict.get j m
  unfolding store
  get-store_ne mint j [] m n = Dict.get-remove_ne mint j m n
  get-store_ne mint j (x ∷ xs) m n = Dict.get-put_ne mint j (x ∷ xs) m n

  unless_empty-In :
      (e : PendingSelectionEntry P) (l : List (PendingSelectionEntry P))
      → In e l
      → unless_empty l ≡ some l
  unless_empty-In e [] h = absurd h
  unless_empty-In e (x ∷ l) h = refl

  unless_empty-some :
      (l l' : List (PendingSelectionEntry P)) → unless_empty l ≡ some l' → (l ≡ l') × (l' ≢ [])
  unless_empty-some [] l' h = cc
  unless_empty-some (x ∷ l) l' h = ground arith

  -- One entry goes, from both indexes.
  module _ (q : PendingSelectionQueue P) (c : IsConsistent q) (e : PendingSelectionEntry P)
      (l rest : List (PendingSelectionEntry P)) (found : Dict.get e.mint q.by_mint ≡ some l)
      (own : Dict.get e.order_id q.by_id ≡ some e)
      (left : (x : PendingSelectionEntry P) → In x rest ↔ (In x l × (x.order_id ≢ e.order_id)))
      (apart : Distinct rest) where
    abbrev pub without : PendingSelectionQueue P
    without = record q {
      by_id = Dict.remove e.order_id q.by_id;
      by_mint = store e.mint rest q.by_mint;
    }

    listed' :
        (id : String) (x : PendingSelectionEntry P)
        → Dict.get id (Dict.remove e.order_id q.by_id) ≡ some x
        → (k : List (PendingSelectionEntry P)) × (Dict.get x.mint (store e.mint rest q.by_mint)
            ≡ some k)
          × In x k
    listed' id x h =
        let (n, g) = Dict.get-remove-some e.order_id id q.by_id h in
        let (k, gk, i) = c.listed id x g in
        elim (text_discrete e.mint x.mint) [
          | yes p ↦
              let same : k ≡ l =
                some-injective _ _ (sym gk ∙ ap (λ m. Dict.get m q.by_mint) (sym p) ∙ found) in
              let i' : In x rest =
                (left x).1 (subst (In x) same i, λ r. n (sym r ∙ c.keyed id x g)) in
              (
                rest,
                ap (λ m. Dict.get m (store e.mint rest q.by_mint)) (sym p)
                    ∙ get-store_self e.mint rest q.by_mint
                    ∙ unless_empty-In x rest i',
                i',
              )
          | no p ↦ (k, get-store_ne e.mint x.mint rest q.by_mint p ∙ gk, i)
        ]

    known' :
        (mint : String) (k : List (PendingSelectionEntry P)) (x : PendingSelectionEntry P)
        → Dict.get mint (store e.mint rest q.by_mint) ≡ some k
        → In x k
        → (x.mint ≡ mint) × (Dict.get x.order_id (Dict.remove e.order_id q.by_id) ≡ some x)
    known' mint k x g i = elim (text_discrete e.mint mint) [
      | yes p ↦
          let g' =
            (unless_empty-some rest k (
              sym (get-store_self e.mint rest q.by_mint)
              ∙ ap (λ m. Dict.get m (store e.mint rest q.by_mint)) p
              ∙ g)).0 in
          let (i', n) = (left x).0 (subst (In x) (sym g') i) in
          let (a, b) = c.known e.mint l x found i' in
          (a ∙ p, Dict.get-remove_ne e.order_id x.order_id q.by_id (λ r. n (sym r)) ∙ b)
      | no p ↦
          let g' = sym (get-store_ne e.mint mint rest q.by_mint p) ∙ g in
          let (a, b) = c.known mint k x g' i in
          (
            a,
            Dict.get-remove_ne e.order_id x.order_id q.by_id (λ r. p (
                  ap (λ w. w.mint)
                    (some-injective _ _ (sym own ∙ ap (λ m. Dict.get m q.by_id) r ∙ b))
                  ∙ a))
                ∙ b,
          )
    ]

    distinct' :
        (mint : String) (k : List (PendingSelectionEntry P))
        → Dict.get mint (store e.mint rest q.by_mint) ≡ some k
        → Distinct k × (k ≢ [])
    distinct' mint k g = elim (text_discrete e.mint mint) [
      | yes p ↦
          let (g', n) = unless_empty-some rest k (
            sym (get-store_self e.mint rest q.by_mint)
            ∙ ap (λ m. Dict.get m (store e.mint rest q.by_mint)) p
            ∙ g) in
          (subst Distinct g' apart, n)
      | no p ↦ c.distinct mint k (sym (get-store_ne e.mint mint rest q.by_mint p) ∙ g)
    ]

    pub without-IsConsistent : IsConsistent without
    without-IsConsistent = record {
      keyed = λ id x h. c.keyed id x (Dict.get-remove-some e.order_id id q.by_id h).1;
      listed = listed';
      known = known';
      distinct = distinct';
    }
