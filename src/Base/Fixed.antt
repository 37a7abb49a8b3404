-- ===== src/Base/Fixed.antt =====
-- Numbers in thousandths, with NaN and Infinity: a concrete type that meets the laws of Number.
-- (No law speaks of roots and exponentials; they are the identity here.)
use Prim.Native.Nat.{ℕ, ◌+◌, ◌-◌, ◌*◌, ◌/◌}
use mathlib.Core.Bool.{Bool, true, false, ◌&&◌}
use native.Mathlib.Omega.{arith}
use trenches.Base.Tests.{leb, ltb, ◌==◌, if◌then◌else◌}
use trenches.Base.Int.{ℤ, pos_part, neg_part, sub_ℕ}
use trenches.Base.Number.{Number, IsOrdered}

pub data Fixed : Type 0 where
  nan infinite : Fixed
  thousandths : ℤ → Fixed

abbrev pub le : Fixed → Fixed → Bool
le (thousandths a) (thousandths b) = leb (pos_part a + neg_part b) (pos_part b + neg_part a)
le (thousandths a) infinite = true
le infinite infinite = true
le _ _ = false

abbrev pub lt : Fixed → Fixed → Bool
lt (thousandths a) (thousandths b) = ltb (pos_part a + neg_part b) (pos_part b + neg_part a)
lt (thousandths a) infinite = true
lt _ _ = false

abbrev is_nan : Fixed → Bool
is_nan nan = true
is_nan _ = false

abbrev min : Fixed → Fixed → Fixed
min nan y = nan
min x nan = nan
min x y = if le x y then x else y

abbrev max : Fixed → Fixed → Fixed
max nan y = nan
max x nan = nan
max x y = if le x y then y else x

abbrev lift : (ℤ → ℤ → ℤ) → Fixed → Fixed → Fixed
lift f nan y = nan
lift f x nan = nan
lift f (thousandths a) (thousandths b) = thousandths (f a b)
lift f _ _ = infinite

-- (p - n) * 1000 / k, the quotient cut off towards 0.
abbrev scale : ℕ → ℕ → ℕ → ℕ → ℤ
scale p n m k = if leb n p then sub_ℕ ((p - n) * m / k) 0 else sub_ℕ 0 ((n - p) * m / k)

abbrev times : ℤ → ℤ → ℤ
times a b =
    scale (pos_part a * pos_part b + neg_part a * neg_part b)
      (pos_part a * neg_part b + neg_part a * pos_part b) 1 1000

abbrev quotient : ℤ → ℤ → Fixed
quotient a b =
    if pos_part b + neg_part b == 0
    then nan
    else if neg_part b == 0
    then thousandths (scale (pos_part a) (neg_part a) 1000 (pos_part b))
    else thousandths (scale (neg_part a) (pos_part a) 1000 (neg_part b))

abbrev over : Fixed → Fixed → Fixed
over (thousandths a) (thousandths b) = quotient a b
over (thousandths a) infinite = thousandths (sub_ℕ 0 0)
over _ _ = nan

abbrev to_whole : ℕ → Fixed → Fixed
to_whole half (thousandths a) = thousandths (sub_ℕ ((pos_part a + half) / 1000 * 1000) (neg_part a))
to_whole half x = x

instance abbrev pub fixed_number : Number Fixed
fixed_number = record {
  ratio = λ n m. thousandths (sub_ℕ (n * 1000 / m) 0);
  infinity = infinite;
  plus = lift (λ a b. sub_ℕ (pos_part a + pos_part b) (neg_part a + neg_part b));
  minus = lift (λ a b. sub_ℕ (pos_part a + neg_part b) (neg_part a + pos_part b));
  times = lift times;
  over = over;
  le = le;
  lt = lt;
  eq = λ x y. le x y && le y x;
  min = min;
  max = max;
  floor = to_whole 0;
  round = to_whole 500;
  sqrt = λ x. x;
  exp = λ x. x;
  log = λ x. x;
  tanh = λ x. x;
  abs = λ x. if lt x (thousandths (sub_ℕ 0 0)) then over x (thousandths (sub_ℕ 0 1000)) else x;
  pow = λ x y. x;
  fround = λ x. x;
  is_finite = λ x. lt x infinite;
}

pub Fixed-IsOrdered : IsOrdered Fixed
Fixed-IsOrdered = record {
  ratio_nonneg = λ n m h. ground arith;
  numbers_of_le = λ x y h. ground arith;
  numbers_of_lt = λ x y h. ground arith;
  numbers_of_finite = λ x h. ground arith;
  le_trans = λ x y z h k. ground arith;
  le_total = λ x y h k. ground arith;
  lt-eq-not-le = λ x y h k. ground arith;
  min-le = λ x y h k. ground arith;
  min_or = λ x y h k. ground arith;
  le-max = λ x y h k. ground arith;
  max_or = λ x y h k. ground arith;
}
