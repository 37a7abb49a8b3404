-- ===== src/Util/Math.antt =====
-- packages/util/src/math.ts (`clamp01`, `sigmoid`).
use trenches.Base.{not, if◌then◌else◌, arith}
use trenches.Base.Number.{Number, whole, ◌≼◌, IsNumber, IsOrdered}

module _ {V : Type 0} ⦃d : Number V⦄ where
  open d use {plus, minus, over, le, exp, is_finite}

  unfoldable pub clamp01 : V → V
  clamp01 x =
      if not (is_finite x)
      then whole 0
      else if le x (whole 0)
      then whole 0
      else if le (whole 1) x
      then whole 1
      else x

  unfoldable pub sigmoid : V → V
  sigmoid z = over (whole 1) (plus (whole 1) (exp (minus (whole 0) z)))

  pub clamp01-IsWithin : IsOrdered V → (x : V) → (whole 0 ≼ clamp01 x) × (clamp01 x ≼ whole 1)
  unfolding clamp01
  clamp01-IsWithin laws x =
      let one = laws.ratio_nonneg 1 1 (omega arith) in
      let numbers = laws.numbers_of_le (whole 0) (whole 1) one in
      let finite = laws.numbers_of_finite x in
      let above = λ (n : IsNumber x). laws.le_total x (whole 0) n numbers.0 in
      let below = λ (n : IsNumber x). laws.le_total (whole 1) x numbers.1 n in
      ground (arith, finite, above, below)
