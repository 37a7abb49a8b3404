-- ===== src/Safety/Reasons.antt =====
-- The lists of reasons that the checks collect.
use trenches.Base.{
  ◌≡◌, refl, List, [], ◌∷◌, ◌++◌, Bool, true, false, not, ◌&&◌, String, if◌then◌else◌, arith,
}
use trenches.Base.Sets.{insert, insert_all}

-- `if (b) reasons.push(reason)`.
abbrev pub reason_if : Bool → String → List String
reason_if b reason = if b then reason ∷ [] else []

-- `if (!result.ok) reasons.push(...result.reasons)`.
abbrev pub unless_ok : Bool → List String → List String
unless_ok ok reasons = if ok then [] else reasons

-- `reasons.length === 0`.
unfoldable pub is_empty : List String → Bool
is_empty [] = true
is_empty (x ∷ xs) = false

pub is_empty-append : (xs ys : List String) → is_empty (xs ++ ys) ≡ is_empty xs && is_empty ys
unfolding is_empty
is_empty-append [] ys = refl
is_empty-append (x ∷ xs) ys = refl

pub is_empty-reason_if : (b : Bool) (reason : String) → is_empty (reason_if b reason) ≡ not b
unfolding is_empty
is_empty-reason_if true reason = refl
is_empty-reason_if false reason = refl

pub is_empty-unless_ok :
    (ok : Bool) (reasons : List String)
    → ok ≡ is_empty reasons
    → is_empty (unless_ok ok reasons) ≡ ok
unfolding is_empty
is_empty-unless_ok true reasons h = refl
is_empty-unless_ok false reasons h = ground (arith, h)

is_empty-insert : (x : String) (s : List String) → is_empty (insert x s) ≡ false
unfolding is_empty insert
is_empty-insert x [] = refl
is_empty-insert x (y ∷ ys) = ground arith

pub is_empty-insert_all :
    (xs s : List String) → is_empty (insert_all xs s) ≡ is_empty xs && is_empty s
unfolding is_empty insert_all
is_empty-insert_all [] s = refl
is_empty-insert_all (x ∷ xs) s =
    ground (arith, is_empty-insert_all xs (insert x s), is_empty-insert x s)
