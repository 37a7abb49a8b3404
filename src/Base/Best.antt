-- ===== src/Base/Best.antt =====
-- A loop that keeps the result with the highest score, `if (!best || score > best.score)`.
use mathlib.Core.Path.{◌≡◌, refl, sym, subst}
use mathlib.Core.Logic.{◌⊎◌, inl, inr}
use mathlib.Core.Option.{Option, none, some}
use mathlib.Core.List.{List, [], ◌∷◌, ◌++◌}
use native.Mathlib.Omega.{arith}
use trenches.Base.Tests.{if_cases, if◌then◌else◌}
use trenches.Base.Number.{Number, ◌≼◌, IsNumber, IsOrdered}

module _ {V R : Type 0} ⦃d : Number V⦄ (score : R → V) where
  abbrev pub better : Option R → Option R → Option R
  better best none = best
  better none (some r) = some r
  better (some b) (some r) = if d.lt (score b) (score r) then some r else some b

  -- The results of the items in their order; an item without one is skipped.
  unfoldable pub choose : {A : Type 0} → (A → Option R) → List A → Option R → Option R
  choose scored [] best = best
  choose scored (t ∷ ts) best = choose scored ts (better best (scored t))

abbrev pub IsIn : {A : Type 0} → A → List A → Type 0
IsIn t [] = ⊥
IsIn t (x ∷ xs) = (x ≡ t) ⊎ IsIn t xs

pub IsIn-right : {A : Type 0} (t : A) (xs ys : List A) → IsIn t ys → IsIn t (xs ++ ys)
IsIn-right t [] ys h = h
IsIn-right t (x ∷ xs) ys h = inr (IsIn-right t xs ys h)

pub IsIn-left : {A : Type 0} (t : A) (xs ys : List A) → IsIn t xs → IsIn t (xs ++ ys)
IsIn-left t [] ys h = elim h [ ]
IsIn-left t (x ∷ xs) ys (inl e) = inl e
IsIn-left t (x ∷ xs) ys (inr h) = inr (IsIn-left t xs ys h)

module _ {V R : Type 0} ⦃d : Number V⦄ (laws : IsOrdered V) (score : R → V) where
  open laws use {numbers_of_le, le_trans, le_total, lt-eq-not-le}

  abbrev pub IsNumberResult : Option R → Type 0
  IsNumberResult none = Unit
  IsNumberResult (some r) = IsNumber (score r)

  -- No better score than the result.
  abbrev pub IsBelow : Option R → Option R → Type 0
  IsBelow none best = Unit
  IsBelow (some r) none = ⊥
  IsBelow (some r) (some b) = score r ≼ score b

  IsBelow-trans : (x y z : Option R) → IsBelow x y → IsBelow y z → IsBelow x z
  IsBelow-trans none y z h k = tt
  IsBelow-trans (some x) none z h k = elim h [ ]
  IsBelow-trans (some x) (some y) none h k = elim k [ ]
  IsBelow-trans (some x) (some y) (some z) h k = le_trans (score x) (score y) (score z) h k

  IsBelow-better :
      (x y : Option R)
      → IsNumberResult x
      → IsNumberResult y
      → IsBelow x (better score x y)
        × IsBelow y (better score x y)
        × IsNumberResult (better score x y)
  IsBelow-better none none h k = (tt, tt, tt)
  IsBelow-better (some x) none h k = (h, tt, h)
  IsBelow-better none (some y) h k = (tt, k, k)
  IsBelow-better (some x) (some y) h k =
      ground (arith, h, k, lt-eq-not-le (score x) (score y) h k, le_total (score x) (score y) h k)

  IsBelow-refl : (x : Option R) → IsNumberResult x → IsBelow x x
  IsBelow-refl none h = tt
  IsBelow-refl (some x) h = h

  -- When all scores are numbers, no item has a higher one than the result.
  pub choose-IsBelow :
      {A : Type 0} (scored : A → Option R) (ts : List A) (best : Option R)
      → ((t : A) → IsNumberResult (scored t))
      → IsNumberResult best
      → IsBelow best (choose score scored ts best)
        × ((t : A) → IsIn t ts → IsBelow (scored t) (choose score scored ts best))
  unfolding choose
  choose-IsBelow scored [] best numbers h = (IsBelow-refl best h, λ t k. elim k [ ])
  choose-IsBelow scored (t ∷ ts) best numbers h =
      let (up, own, number) = IsBelow-better best (scored t) h (numbers t) in
      let (bound, bounds) =
        choose-IsBelow scored ts (better score best (scored t)) numbers number in
      let own_bound = IsBelow-trans (scored t) _ _ own bound in
      (
        IsBelow-trans best _ _ up bound,
        (λ j k. elim k [
          | inl e ↦ subst (λ x. IsBelow (scored x) (choose score scored (t ∷ ts) best)) e own_bound
          | inr later ↦ bounds j later
        ]),
      )

module _ {A R : Type 0} where
  -- The result of one of the items.
  abbrev pub IsFrom : (A → Option R) → List A → Option R → Type 0
  IsFrom scored ts none = Unit
  IsFrom scored ts (some r) = (t : A) × IsIn t ts × (scored t ≡ some r)

  -- What the loop starts from or the result of one of the items.
  abbrev pub IsOneOf : (A → Option R) → List A → Option R → Option R → Type 0
  IsOneOf scored ts best o = (o ≡ best) ⊎ IsFrom scored ts o

  IsFrom-later :
      (scored : A → Option R) (t : A) (ts : List A) (o : Option R)
      → IsFrom scored ts o
      → IsFrom scored (t ∷ ts) o
  IsFrom-later scored t ts none h = tt
  IsFrom-later scored t ts (some r) (j, k, e) = (j, inr k, e)

module _ {A V R : Type 0} ⦃d : Number V⦄ (score : R → V) where
  IsOneOf-better :
      (scored : A → Option R) (t : A) (ts : List A) (best o : Option R)
      → scored t ≡ o
      → IsOneOf scored (t ∷ ts) best (better score best o)
  IsOneOf-better scored t ts none none e = inl refl
  IsOneOf-better scored t ts (some b) none e = inl refl
  IsOneOf-better scored t ts none (some r) e = inr (t, inl refl, e)
  IsOneOf-better scored t ts (some b) (some r) e =
      if_cases (IsOneOf scored (t ∷ ts) (some b)) (d.lt (score b) (score r)) (some r) (some b)
        (λ h. inr (t, inl refl, e)) (λ h. inl refl)

  pub choose-IsOneOf :
      (scored : A → Option R) (ts : List A) (best : Option R)
      → IsOneOf scored ts best (choose score scored ts best)
  unfolding choose
  choose-IsOneOf scored [] best = inl refl
  choose-IsOneOf scored (t ∷ ts) best =
      elim (choose-IsOneOf scored ts (better score best (scored t))) [
        | inl e ↦
            subst (IsOneOf scored (t ∷ ts) best) (sym e)
              (IsOneOf-better scored t ts best (scored t) refl)
        | inr h ↦ inr (IsFrom-later scored t ts _ h)
      ]

  -- From nothing, the result is that of one of the items.
  pub choose-IsFrom :
      (scored : A → Option R) (ts : List A) → IsFrom scored ts (choose score scored ts none)
  choose-IsFrom scored ts = elim (choose-IsOneOf scored ts none) [
    | inl e ↦ subst (IsFrom scored ts) (sym e) tt
    | inr h ↦ h
  ]
