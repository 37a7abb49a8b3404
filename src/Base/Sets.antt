-- ===== src/Base/Sets.antt =====
-- JavaScript's `Set` of strings: its elements in the order of their insertion.
use Prim.Native.String.{String}
use mathlib.Core.Path.{◌≡◌, refl}
use mathlib.Core.Logic.{ite}
use mathlib.Core.List.{List, [], ◌∷◌, ◌++◌}
use mathlib.Core.Bool.{Bool, true, false, not, ◌&&◌, ◌||◌}
use mathlib.Core.Option.{Option, none, some}
use native.Mathlib.Omega.{arith}
use trenches.Base.Tests.{text_discrete, if◌then◌else◌}

-- `===` as a Boolean.
abbrev pub same : String → String → Bool
same s t = ite (text_discrete s t) true false

-- A text that is there and is not empty.
abbrev pub truthy : Option String → Option String
truthy none = none
truthy (some s) = if same s "" then none else some s

-- `s.has(x)`.
unfoldable pub mem : String → List String → Bool
mem x [] = false
mem x (y ∷ ys) = same y x || mem x ys

-- `s.add(x)`: an element that is there keeps its place.
unfoldable pub insert : String → List String → List String
insert x [] = x ∷ []
insert x (y ∷ ys) = ite (text_discrete y x) (y ∷ ys) (y ∷ insert x ys)

-- `s.delete(x)`.
unfoldable pub delete : String → List String → List String
delete x [] = []
delete x (y ∷ ys) = ite (text_discrete y x) (delete x ys) (y ∷ delete x ys)

-- `for (const x of xs) s.add(x)`.
unfoldable pub insert_all : List String → List String → List String
insert_all [] s = s
insert_all (x ∷ xs) s = insert_all xs (insert x s)

pub mem-insert : (x j : String) (s : List String) → mem j (insert x s) ≡ same x j || mem j s
unfolding mem insert
mem-insert x j [] = ground arith
mem-insert x j (y ∷ ys) = ground (arith, mem-insert x j ys)

pub mem-delete : (x j : String) (s : List String) → mem j (delete x s) ≡ not (same x j) && mem j s
unfolding mem delete
mem-delete x j [] = ground arith
mem-delete x j (y ∷ ys) = ground (arith, mem-delete x j ys)

pub mem-insert_all :
    (j : String) (xs s : List String) → mem j (insert_all xs s) ≡ mem j xs || mem j s
unfolding mem insert_all
mem-insert_all j [] s = refl
mem-insert_all j (x ∷ xs) s = ground (arith, mem-insert_all j xs (insert x s), mem-insert x j s)

pub mem-append : (j : String) (xs ys : List String) → mem j (xs ++ ys) ≡ mem j xs || mem j ys
unfolding mem
mem-append j [] ys = refl
mem-append j (x ∷ xs) ys = ground (arith, mem-append j xs ys)
