-- ===== src/Base/Dict.antt =====
-- JavaScript's `Map` with string keys: entries in the order of their first insertion.
use Prim.Native.String.{String}
use mathlib.Core.Path.{◌≡◌, refl, sym, ◌∙◌}
use mathlib.Core.Logic.{ite, if_pos, if_neg, ◌≢◌}
use mathlib.Core.List.{List, [], ◌∷◌}
use mathlib.Core.Bool.{Bool}
use mathlib.Core.Option.{Option, none, some}
use native.Mathlib.Omega.{arith}
use trenches.Base.Tests.{text_discrete, if◌then◌else◌}

abbrev pub Dict {ℓ} : Type ℓ → Type ℓ
Dict V = List (String × V)

module _ {ℓ} {V : Type ℓ} where
  unfoldable pub get : String → Dict V → Option V
  get k [] = none
  get k ((j, v) ∷ m) = ite (text_discrete j k) (some v) (get k m)

  -- `m.set(k, v)`: a key that is there keeps its place.
  unfoldable pub put : String → V → Dict V → Dict V
  put k v [] = (k, v) ∷ []
  put k v ((j, w) ∷ m) = ite (text_discrete j k) ((k, v) ∷ m) ((j, w) ∷ put k v m)

  -- `m.delete(k)`.
  unfoldable pub remove : String → Dict V → Dict V
  remove k [] = []
  remove k ((j, w) ∷ m) = ite (text_discrete j k) (remove k m) ((j, w) ∷ remove k m)

  -- The entries that a loop over the map keeps when it deletes the others on the way.
  unfoldable pub keep : (String → V → Bool) → Dict V → Dict V
  keep p [] = []
  keep p ((j, w) ∷ m) = if p j w then (j, w) ∷ keep p m else keep p m

  -- No key stands twice.
  abbrev pub IsDict : Dict V → Type ℓ
  IsDict [] = Unit
  IsDict ((k, v) ∷ m) = (get k m ≡ none) × IsDict m

  pub get-put :
      (k j : String) (v : V) (m : Dict V)
      → get j (put k v m) ≡ ite (text_discrete k j) (some v) (get j m)
  unfolding get put
  get-put k j v [] = refl
  get-put k j v ((i, w) ∷ m) = ground (arith, get-put k j v m)

  pub get-remove :
      (k j : String) (m : Dict V) → get j (remove k m) ≡ ite (text_discrete k j) none (get j m)
  unfolding get remove
  get-remove k j [] = ground arith
  get-remove k j ((i, w) ∷ m) = ground (arith, get-remove k j m)

  pub put-IsDict : (k : String) (v : V) (m : Dict V) → IsDict m → IsDict (put k v m)
  unfolding put get
  put-IsDict k v [] h = (refl, tt)
  put-IsDict k v ((i, w) ∷ m) h = ground (arith, put-IsDict k v m h.1, get-put k i v m)

  pub remove-IsDict : (k : String) (m : Dict V) → IsDict m → IsDict (remove k m)
  unfolding remove
  remove-IsDict k [] h = tt
  remove-IsDict k ((i, w) ∷ m) h = ground (arith, remove-IsDict k m h.1, get-remove k i m)

  keep-get-none :
      (p : String → V → Bool) (k : String) (m : Dict V) → get k m ≡ none → get k (keep p m) ≡ none
  unfolding get keep
  keep-get-none p k [] h = refl
  keep-get-none p k ((i, w) ∷ m) h = ground (arith, keep-get-none p k m)

  pub keep-IsDict : (p : String → V → Bool) (m : Dict V) → IsDict m → IsDict (keep p m)
  unfolding keep
  keep-IsDict p [] h = tt
  keep-IsDict p ((i, w) ∷ m) h = ground (arith, keep-IsDict p m h.1, keep-get-none p i m h.0)

  -- An entry that is kept is found as before, one that is not kept is gone.
  pub get-keep :
      (p : String → V → Bool) (k : String) (m : Dict V)
      → IsDict m
      → get k (keep p m)
        ≡ (elim (get k m) [ none ↦ none | some v ↦ if p k v then some v else none ])
  unfolding get keep
  get-keep p k [] h = refl
  get-keep p k ((i, w) ∷ m) h = ground (arith, get-keep p k m h.1, keep-get-none p k m)

  pub get-remove-some :
      (k j : String) (m : Dict V) {v : V}
      → get j (remove k m) ≡ some v
      → (k ≢ j) × (get j m ≡ some v)
  get-remove-some k j m h = elim (text_discrete k j) [
    | yes p ↦ ground (arith, get-remove k j m)
    | no p ↦ (p, sym (if_neg (text_discrete k j) p none (get j m)) ∙ sym (get-remove k j m) ∙ h)
  ]

  pub get-remove_ne : (k j : String) (m : Dict V) → k ≢ j → get j (remove k m) ≡ get j m
  get-remove_ne k j m n = get-remove k j m ∙ if_neg (text_discrete k j) n none (get j m)

  pub get-remove_self : (k : String) (m : Dict V) → get k (remove k m) ≡ none
  get-remove_self k m = get-remove k k m ∙ if_pos (text_discrete k k) refl none (get k m)

  pub get-put_ne : (k j : String) (v : V) (m : Dict V) → k ≢ j → get j (put k v m) ≡ get j m
  get-put_ne k j v m n = get-put k j v m ∙ if_neg (text_discrete k j) n (some v) (get j m)

  pub get-put_self : (k : String) (v : V) (m : Dict V) → get k (put k v m) ≡ some v
  get-put_self k v m = get-put k k v m ∙ if_pos (text_discrete k k) refl (some v) (get k m)
