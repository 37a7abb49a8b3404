-- ===== src/Narrative/Clusters/Vectors.antt =====
-- services/narrative-miner/src/embedding.ts (`cosineSimilarity`, `blendVectors`, `normalizeVector`)
-- and the functions on vectors of cluster.ts. The vectors of one program run have one length,
-- `EMBEDDING_DIM`; a vector is the list of its elements.
use trenches.Base.{List, [], ◌∷◌, Bool, false, not, ◌||◌, if◌then◌else◌, map}
use trenches.Base.Number.{Number, whole}

module _ {V : Type 0} ⦃d : Number V⦄ where
  open d use {plus, times, over, eq, sqrt, fround}

  unfoldable pub has_magnitude : List V → Bool
  has_magnitude [] = false
  has_magnitude (x ∷ xs) = not (eq x (whole 0)) || has_magnitude xs

  abbrev dot_from : V → List V → List V → V
  dot_from sum [] ys = sum
  dot_from sum (x ∷ xs) [] = sum
  dot_from sum (x ∷ xs) (y ∷ ys) = dot_from (plus sum (times x y)) xs ys

  unfoldable pub dot_product : List V → List V → V
  dot_product a b = dot_from (whole 0) a b

  -- The first elements of `xs`, as many as `ys` has.
  abbrev common : List V → List V → List V
  common [] ys = []
  common (x ∷ xs) [] = []
  common (x ∷ xs) (y ∷ ys) = x ∷ common xs ys

  unfoldable pub cosine_similarity : List V → List V → V
  cosine_similarity a b =
      let norm_a = dot_from (whole 0) (common a b) (common a b) in
      let norm_b = dot_from (whole 0) (common b a) (common b a) in
      if eq norm_a (whole 0) || eq norm_b (whole 0)
      then whole 0
      else over (dot_from (whole 0) a b) (sqrt (times norm_a norm_b))

  unfoldable pub normalize_vector : List V → List V
  normalize_vector v =
      let norm = dot_from (whole 0) v v in
      let scale = over (whole 1) (sqrt norm) in
      if eq norm (whole 0) then v else map (λ x. fround (times x scale)) v

  abbrev blended : List V → List V → V → List V
  blended [] ys weight = []
  blended (x ∷ xs) [] weight = []
  blended (x ∷ xs) (y ∷ ys) weight = fround (plus (times x weight) y) ∷ blended xs ys weight

  unfoldable pub blend_vectors : List V → List V → V → List V
  blend_vectors current incoming weight = normalize_vector (blended current incoming weight)
