-- ===== src/Narrative/Clusters/Index/Query.antt =====
-- What the index answers.
use trenches.Base.{
  ◌≡◌, refl, List, [], ◌∷◌, Bool, false, not, ◌&&◌, ◌||◌, String, ite, text_discrete, arith,
  ◌or_else◌, Option-cases, inl, inr,
}
use trenches.Base.Dict
use trenches.Base.Dict.{Dict}
use trenches.Base.Sets.{
  same, mem, insert, delete, insert_all, mem-insert, mem-delete, mem-insert_all,
}
use trenches.Narrative.Clusters.Index.{
  LshIndex, bucket, store_bucket, add_keys, remove_keys, add, remove, update, query_from, query,
}

-- Whether the bucket of the key has the id, and whether the signature of the id has the key.
abbrev pub holds : String → String → LshIndex → Bool
holds key id x = mem id (bucket key x.buckets)

abbrev pub signature_of : String → LshIndex → List String
signature_of id x = Dict.get id x.signatures or_else []

-- The buckets are those of the signatures.
abbrev pub IsIndexed : LshIndex → Type 0
IsIndexed x = (key id : String) → holds key id x ≡ mem key (signature_of id x)

mem-bucket-add_keys :
    (id key j : String) (keys : List String) (m : Dict (List String))
    → mem j (bucket key (add_keys id keys m)) ≡ (same id j && mem key keys) || mem j (bucket key m)
unfolding add_keys mem
mem-bucket-add_keys id key j [] m = ground arith
mem-bucket-add_keys id key j (k ∷ keys) m = ground (
  arith,
  mem-bucket-add_keys id key j keys (Dict.put k (insert id (bucket k m)) m),
  Dict.get-put k key (insert id (bucket k m)) m,
  mem-insert id j (bucket k m),
)

mem-bucket-store_bucket :
    (k key j : String) (ids : List String) (m : Dict (List String))
    → mem j (bucket key (store_bucket k ids m))
      ≡ ite (text_discrete k key) (mem j ids) (mem j (bucket key m))
unfolding store_bucket mem
mem-bucket-store_bucket k key j [] m = ground (arith, Dict.get-remove k key m)
mem-bucket-store_bucket k key j (id ∷ ids) m = ground (arith, Dict.get-put k key (id ∷ ids) m)

mem-bucket-remove_keys :
    (id key j : String) (keys : List String) (m : Dict (List String))
    → mem j (bucket key (remove_keys id keys m))
      ≡ not (same id j && mem key keys) && mem j (bucket key m)
unfolding remove_keys mem
mem-bucket-remove_keys id key j [] m = ground arith
mem-bucket-remove_keys id key j (k ∷ keys) m = elim (Option-cases (Dict.get k m)) [
  | inl e ↦ ground (arith, mem-bucket-remove_keys id key j keys m)
  | inr (ids, e) ↦ ground (
    arith,
    mem-bucket-remove_keys id key j keys (store_bucket k (delete id ids) m),
    mem-bucket-store_bucket k key j (delete id ids) m,
    mem-delete id j ids,
  )
]

pub remove-IsIndexed : (id : String) (x : LshIndex) → IsIndexed x → IsIndexed (remove id x)
unfolding remove mem
remove-IsIndexed id x h key j = elim (Option-cases (Dict.get id x.signatures)) [
  | inl e ↦ ground (arith, h key j)
  | inr (signature, e) ↦ ground (
    arith,
    h key j,
    h key id,
    mem-bucket-remove_keys id key j signature x.buckets,
    Dict.get-remove id j x.signatures,
  )
]

-- A new id.
pub add-IsIndexed :
    (id : String) (signature : List String) (x : LshIndex)
    → signature_of id x ≡ []
    → IsIndexed x
    → IsIndexed (add id signature x)
unfolding add mem
add-IsIndexed id signature x new h key j = ground (
  arith,
  h key j,
  mem-bucket-add_keys id key j signature x.buckets,
  Dict.get-put id j signature x.signatures,
)

signature_of-remove : (id : String) (x : LshIndex) → signature_of id (remove id x) ≡ []
unfolding remove
signature_of-remove id x = elim (Option-cases (Dict.get id x.signatures)) [
  | inl e ↦ ground arith
  | inr (signature, e) ↦ ground (arith, Dict.get-remove_self id x.signatures)
]

pub update-IsIndexed :
    (id : String) (signature : List String) (x : LshIndex)
    → IsIndexed x
    → IsIndexed (update id signature x)
unfolding update
update-IsIndexed id signature x h =
    add-IsIndexed id signature (remove id x) (signature_of-remove id x) (remove-IsIndexed id x h)

-- Whether two lists of keys have one in common.
unfoldable pub shares : List String → List String → Bool
shares [] ys = false
shares (x ∷ xs) ys = mem x ys || shares xs ys

mem-query_from :
    (id : String) (keys : List String) (x : LshIndex) (candidates : List String)
    → IsIndexed x
    → mem id (query_from keys x candidates) ≡ shares keys (signature_of id x) || mem id candidates
unfolding query_from shares
mem-query_from id [] x candidates h = refl
mem-query_from id (key ∷ keys) x candidates h = ground (
  arith,
  h key id,
  mem-query_from id keys x (insert_all (bucket key x.buckets) candidates) h,
  mem-insert_all id (bucket key x.buckets) candidates,
)

-- A history of the index.
pub data Change : Type 0 where
  sets : String → List String → Change
  removes : String → Change

unfoldable pub run : List Change → LshIndex
run [] = record { buckets = []; signatures = [] }
run (sets id signature ∷ earlier) = update id signature (run earlier)
run (removes id ∷ earlier) = remove id (run earlier)

-- The signature that the history gave the id last.
unfoldable pub latest : String → List Change → List String
latest id [] = []
latest id (sets j signature ∷ earlier) = ite (text_discrete j id) signature (latest id earlier)
latest id (removes j ∷ earlier) = ite (text_discrete j id) [] (latest id earlier)

run-IsIndexed : (changes : List Change) → IsIndexed (run changes)
unfolding run mem Dict.get
run-IsIndexed [] = λ key id. refl
run-IsIndexed (sets id signature ∷ earlier) =
    update-IsIndexed id signature (run earlier) (run-IsIndexed earlier)
run-IsIndexed (removes id ∷ earlier) = remove-IsIndexed id (run earlier) (run-IsIndexed earlier)

signature_of-remove_any :
    (id j : String) (x : LshIndex)
    → signature_of j (remove id x) ≡ ite (text_discrete id j) [] (signature_of j x)
unfolding remove
signature_of-remove_any id j x = elim (Option-cases (Dict.get id x.signatures)) [
  | inl e ↦ ground arith
  | inr (signature, e) ↦ ground (arith, Dict.get-remove id j x.signatures)
]

signature_of-run :
    (id : String) (changes : List Change) → signature_of id (run changes) ≡ latest id changes
unfolding run latest Dict.get update add
signature_of-run id [] = refl
signature_of-run id (sets j signature ∷ earlier) = ground (
  arith,
  signature_of-run id earlier,
  signature_of-remove_any j id (run earlier),
  Dict.get-put j id signature (remove j (run earlier)).signatures,
)
signature_of-run id (removes j ∷ earlier) =
    ground (arith, signature_of-run id earlier, signature_of-remove_any j id (run earlier))

-- After any history of updates and removals, a query finds exactly the ids whose latest signature
-- has a band in common with the signature asked for.
pub query-latest :
    (changes : List Change) (signature : List String) (id : String)
    → mem id (query signature (run changes)) ≡ shares signature (latest id changes)
unfolding query mem
query-latest changes signature id = ground (
  arith,
  mem-query_from id signature (run changes) [] (run-IsIndexed changes),
  signature_of-run id changes,
)
