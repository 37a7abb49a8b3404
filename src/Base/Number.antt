-- ===== src/Base/Number.antt =====
-- JavaScript numbers: the operations that the program uses, and what it relies on of them. The
-- program's own code is modelled over any type with these operations.
use Prim.Native.Nat.{ℕ, ◌<◌}
use mathlib.Core.Path.{◌≡◌}
use mathlib.Core.Logic.{◌⊎◌, inl, inr}
use mathlib.Core.Bool.{Bool, true, not}

pub record Number {ℓ} (V : Type ℓ) : Type ℓ where
  -- The literal n / d, such as 0.25 for 1 and 4.
  pub ratio : ℕ → ℕ → V
  pub infinity : V
  pub plus : V → V → V
  pub minus : V → V → V
  pub times : V → V → V
  pub over : V → V → V
  -- `<=`, `<`, `===`.
  pub le : V → V → Bool
  pub lt : V → V → Bool
  pub eq : V → V → Bool
  -- `Math.min`, `Math.max`, `Math.floor`, `Math.round`, `Math.sqrt`, `Math.exp`,
  -- `Math.log`, `Math.tanh`, `Math.abs`, `Math.pow`, the store into a Float32Array, `Number.isFinite`.
  pub min : V → V → V
  pub max : V → V → V
  pub floor : V → V
  pub round : V → V
  pub sqrt : V → V
  pub exp : V → V
  pub log : V → V
  pub tanh : V → V
  pub abs : V → V
  pub pow : V → V → V
  pub fround : V → V
  pub is_finite : V → Bool

-- A whole literal.
abbrev pub whole {ℓ} : {V : Type ℓ} ⦃d : Number V⦄ → ℕ → V
whole ⦃d⦄ n = d.ratio n 1

infix 4 ◌≼◌
abbrev pub ◌≼◌ {ℓ} : {V : Type ℓ} ⦃d : Number V⦄ → V → V → Type 0
◌≼◌ ⦃d⦄ x y = d.le x y ≡ true

-- NaN is the only value that is not `<=` itself.
abbrev pub IsNumber {ℓ} : {V : Type ℓ} ⦃d : Number V⦄ → V → Type 0
IsNumber x = x ≼ x

-- The order of the numbers as ECMAScript defines it. A comparison with NaN is false, the others
-- are in one linear order, and `Math.min` and `Math.max` of two of them is the one or the other.
pub record IsOrdered {ℓ} (V : Type ℓ) ⦃d : Number V⦄ : Type ℓ where
  pub ratio_nonneg : (n m : ℕ) → 0 < m → d.ratio 0 1 ≼ d.ratio n m
  pub numbers_of_le : (x y : V) → x ≼ y → IsNumber x × IsNumber y
  pub numbers_of_lt : (x y : V) → d.lt x y ≡ true → IsNumber x × IsNumber y
  pub numbers_of_finite : (x : V) → d.is_finite x ≡ true → IsNumber x
  pub le_trans : (x y z : V) → x ≼ y → y ≼ z → x ≼ z
  pub le_total : (x y : V) → IsNumber x → IsNumber y → (x ≼ y) ⊎ (y ≼ x)
  pub lt-eq-not-le : (x y : V) → IsNumber x → IsNumber y → d.lt x y ≡ not (d.le y x)
  pub min-le : (x y : V) → IsNumber x → IsNumber y → (d.min x y ≼ x) × (d.min x y ≼ y)
  pub min_or : (x y : V) → IsNumber x → IsNumber y → (d.min x y ≡ x) ⊎ (d.min x y ≡ y)
  pub le-max : (x y : V) → IsNumber x → IsNumber y → (x ≼ d.max x y) × (y ≼ d.max x y)
  pub max_or : (x y : V) → IsNumber x → IsNumber y → (d.max x y ≡ x) ⊎ (d.max x y ≡ y)

module _ {ℓ} {V : Type ℓ} ⦃d : Number V⦄ (laws : IsOrdered V) where
  open laws use {numbers_of_le, le_trans, min-le, min_or, le-max, max_or}

  pub min-IsNumber : (x y : V) → IsNumber x → IsNumber y → IsNumber (d.min x y)
  min-IsNumber x y hx hy = (numbers_of_le _ _ (min-le x y hx hy).0).0

  pub max-IsNumber : (x y : V) → IsNumber x → IsNumber y → IsNumber (d.max x y)
  max-IsNumber x y hx hy = (numbers_of_le _ _ (le-max x y hx hy).0).1

  -- What bounds both from below bounds the smaller.
  pub le-min : (z x y : V) → z ≼ x → z ≼ y → z ≼ d.min x y
  le-min z x y hx hy = elim (min_or x y (numbers_of_le _ _ hx).1 (numbers_of_le _ _ hy).1) [
    | inl e ↦ rw e hx
    | inr e ↦ rw e hy
  ]

  pub max-le : (z x y : V) → x ≼ z → y ≼ z → d.max x y ≼ z
  max-le z x y hx hy = elim (max_or x y (numbers_of_le _ _ hx).0 (numbers_of_le _ _ hy).0) [
    | inl e ↦ rw e hx
    | inr e ↦ rw e hy
  ]
