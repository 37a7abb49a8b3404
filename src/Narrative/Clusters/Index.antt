-- ===== src/Narrative/Clusters/Index.antt =====
-- services/narrative-miner/src/cluster.ts (`LshIndex`). The hyperplanes, by band and row, are an
-- argument: `buildHyperplanes` draws them from a seeded generator. A signature is a word of 32 bits,
-- which `hex` prints as JavaScript prints that number, with the band before it.
pub mod Query
use trenches.Base.{
  ℕ, suc, ◌+◌, ◌*◌, ◌%◌, List, [], ◌∷◌, ◌++◌, Option, none, some, Bool, true, false, String, ite,
  text_discrete, if◌then◌else◌, ◌or_else◌,
}
use trenches.Base.Dict
use trenches.Base.Dict.{Dict}
use trenches.Base.Sets.{mem, insert, delete, insert_all}
use trenches.Base.Number.{Number, whole}
use trenches.Narrative.Clusters.Vectors.{dot_product}

pub record LshIndex : Type 0 where
  pub buckets : Dict (List String)
  pub signatures : Dict (List String)

-- The keys of a vector's bands: `${band}:${signature.toString(16)}`.
module _ {V : Type 0} ⦃d : Number V⦄ (hex : ℕ → ℕ → String) where
  open d use {le}

  abbrev bits : ℕ → List (List V) → List V → ℕ
  bits signature [] vector = signature
  bits signature (plane ∷ planes) vector =
      let bit = if le (whole 0) (dot_product plane vector) then 1 else 0 in
      bits ((signature * 2 + bit) % 4294967296) planes vector

  unfoldable pub compute_signature : ℕ → List (List (List V)) → List V → List String
  compute_signature band [] vector = []
  compute_signature band (planes ∷ rest) vector =
      hex band (bits 0 planes vector) ∷ compute_signature (suc band) rest vector

-- The bucket of a key; an empty bucket is not kept.
abbrev pub bucket : String → Dict (List String) → List String
bucket key buckets = Dict.get key buckets or_else []

unfoldable pub store_bucket : String → List String → Dict (List String) → Dict (List String)
store_bucket key [] buckets = Dict.remove key buckets
store_bucket key (id ∷ ids) buckets = Dict.put key (id ∷ ids) buckets

unfoldable pub add_keys : String → List String → Dict (List String) → Dict (List String)
add_keys id [] buckets = buckets
add_keys id (key ∷ keys) buckets =
    add_keys id keys (Dict.put key (insert id (bucket key buckets)) buckets)

unfoldable pub remove_keys : String → List String → Dict (List String) → Dict (List String)
remove_keys id [] buckets = buckets
remove_keys id (key ∷ keys) buckets = elim (Dict.get key buckets) [
  | none ↦ remove_keys id keys buckets
  | some ids ↦ remove_keys id keys (store_bucket key (delete id ids) buckets)
]

-- `add`, `remove`, `update` and `query`, with the signature of the vector.
unfoldable pub add : String → List String → LshIndex → LshIndex
add id signature x = record {
  buckets = add_keys id signature x.buckets;
  signatures = Dict.put id signature x.signatures;
}

unfoldable pub remove : String → LshIndex → LshIndex
remove id x = elim (Dict.get id x.signatures) [
  | none ↦ x
  | some signature ↦ record {
    buckets = remove_keys id signature x.buckets;
    signatures = Dict.remove id x.signatures;
  }
]

unfoldable pub update : String → List String → LshIndex → LshIndex
update id signature x = add id signature (remove id x)

unfoldable pub query_from : List String → LshIndex → List String → List String
query_from [] x candidates = candidates
query_from (key ∷ keys) x candidates =
    query_from keys x (insert_all (bucket key x.buckets) candidates)

unfoldable pub query : List String → LshIndex → List String
query signature x = query_from signature x []
