-- ===== src/Narrative/Clusters/Manager/Links.antt =====
-- How the three maps of the manager hang together.
use trenches.Base.{
  ℕ, ◌≡◌, refl, sym, ap, subst, ◌∙◌, List, [], ◌∷◌, Option, none, some, Bool, true, false, String,
  ite, text_discrete, arith, Option-cases, inl, inr,
}
use trenches.Base.Dict
use trenches.Base.Dict.{Dict}
use trenches.Base.Sets.{mem, mem-insert}
use trenches.Base.Number.{Number}
use trenches.Narrative.PhraseTracker.{PhraseObservation}
use trenches.Narrative.Clusters.Vectors.{has_magnitude}
use trenches.Narrative.Clusters.Index.{LshIndex, query}
use trenches.Narrative.Clusters.Index as index
use trenches.Narrative.Clusters.Index.Query.{IsIndexed, add-IsIndexed, update-IsIndexed}
use trenches.Narrative.Clusters.Manager.{
  signature, best_from, similar, resolve_cluster, create_cluster, merge_into, joined, observe,
  observed,
}
use trenches.Narrative.Clusters.Model.{
  Cluster, ClusterManager, BaselineSnapshot, ExtractedPhrase, Settings,
}

abbrev pub has_phrase : {V : Type 0} → String → Option (Cluster V) → Bool
has_phrase phrase none = false
has_phrase phrase (some c) = mem phrase c.phrases

module _ {V : Type 0} ⦃d : Number V⦄ (cfg : Settings V) where
  abbrev pub signature_for : Option (Cluster V) → Option (List String)
  signature_for none = none
  signature_for (some c) = some (signature cfg c.centroid)

  -- Each cluster is filed under its id, each phrase leads to a cluster that has it, and the index
  -- has the signature of each cluster's vector and nothing else.
  pub record IsLinked (m : ClusterManager V) : Type 0 where
    pub keyed : (id : String) (c : Cluster V) → Dict.get id m.clusters ≡ some c → c.id ≡ id
    pub linked :
        (phrase id : String)
        → Dict.get phrase m.phrase_to_cluster ≡ some id
        → has_phrase phrase (Dict.get id m.clusters) ≡ true
    pub signed :
        (id : String) → Dict.get id m.index.signatures ≡ signature_for (Dict.get id m.clusters)
    pub indexed : IsIndexed m.index

  -- A cluster that the manager has.
  abbrev IsKnown : ClusterManager V → Option (Cluster V) → Type 0
  IsKnown m none = Unit
  IsKnown m (some c) = Dict.get c.id m.clusters ≡ some c

  abbrev first : Option (Cluster V × V) → Option (Cluster V)
  first none = none
  first (some (c, cosine)) = some c

  best_from-IsKnown :
      (vector : List V) (m : ClusterManager V) (ids : List String) (best : Option (Cluster V × V))
      → IsLinked m
      → IsKnown m (first best)
      → IsKnown m (first (best_from cfg vector m.clusters ids best))
  unfolding best_from
  best_from-IsKnown vector m [] best l h = h
  best_from-IsKnown vector m (id ∷ ids) best l h = elim (Option-cases (Dict.get id m.clusters)) [
    | inl e ↦ rw (best_from, e) (best_from-IsKnown vector m ids best l h)
    | inr (c, e) ↦
        let own = ap (λ k. Dict.get k m.clusters) (l.keyed id c e) ∙ e in
        rw (best_from, e) (best_from-IsKnown vector m ids _ l (ground (arith, own, h)))
  ]

  similar-IsKnown :
      (vector : List V) (m : ClusterManager V) → IsLinked m → IsKnown m (similar cfg vector m)
  unfolding similar
  similar-IsKnown vector m l =
      let found = best_from cfg vector m.clusters (query (signature cfg vector) m.index) none in
      let known = best_from-IsKnown vector m (query (signature cfg vector) m.index) none l tt in
      elim (Option-cases found) [
        | inl e ↦ rw (similar, e) tt
        | inr ((c, cosine), e) ↦
            let own : IsKnown m (some c) = subst (λ o. IsKnown m (first o)) e known in
            rw (similar, e) (ground (arith, own))
      ]

  resolve_cluster-IsKnown :
      (phrase : String) (vector : List V) (m : ClusterManager V)
      → IsLinked m
      → IsKnown m (resolve_cluster cfg phrase vector m)
  unfolding resolve_cluster
  resolve_cluster-IsKnown phrase vector m l =
      let known = similar-IsKnown vector m l in
      elim (Option-cases (Dict.get phrase m.phrase_to_cluster)) [
        | inl e ↦ rw (resolve_cluster, e) known
        | inr (id, e) ↦ elim (Option-cases (Dict.get id m.clusters)) [
          | inl none_there ↦ rw (resolve_cluster, e) (ground (arith, known, none_there))
          | inr (c, there) ↦
              let own = ap (λ k. Dict.get k m.clusters) (l.keyed id c there) ∙ there in
              rw (resolve_cluster, e) (ground (arith, known, there, own))
        ]
      ]

  -- What `observe` leaves: the cluster and its phrase stored, with an index that has its signature.
  abbrev stored : Cluster V → String → LshIndex → ClusterManager V → ClusterManager V
  stored c phrase x m = record {
    clusters = Dict.put c.id c m.clusters;
    phrase_to_cluster = Dict.put phrase c.id m.phrase_to_cluster;
    index = x;
  }

  stored-IsLinked :
      (c : Cluster V) (phrase : String) (x : LshIndex) (m : ClusterManager V)
      → IsLinked m
      → mem phrase c.phrases ≡ true
      → ((p : String) → has_phrase p (Dict.get c.id m.clusters) ≡ true → mem p c.phrases ≡ true)
      → ((id : String)
          → Dict.get id x.signatures
            ≡ ite
                (text_discrete c.id id)
                (some (signature cfg c.centroid))
                (Dict.get id m.index.signatures))
      → IsIndexed x
      → IsLinked (stored c phrase x m)
  stored-IsLinked c phrase x m l own grows signs indexed = record {
    keyed = λ id c' h. elim (text_discrete c.id id) [
      | yes e ↦ ground (arith, Dict.get-put c.id id c m.clusters, h, e)
      | no n ↦ l.keyed id c' (sym (Dict.get-put_ne c.id id c m.clusters n) ∙ h)
    ];
    linked = λ p id h. ground (
      arith,
      h,
      own,
      grows p,
      l.linked p id,
      Dict.get-put phrase p c.id m.phrase_to_cluster,
      Dict.get-put c.id id c m.clusters,
    );
    signed = λ id. ground (arith, signs id, l.signed id, Dict.get-put c.id id c m.clusters);
    indexed = indexed;
  }

  -- What makes the result of `joined` fit to be stored.
  abbrev Fits : ClusterManager V → String → Cluster V × List String × LshIndex → Type 0
  Fits m key (c, added, x) =
      (mem key c.phrases ≡ true)
      × ((p : String) → has_phrase p (Dict.get c.id m.clusters) ≡ true → mem p c.phrases ≡ true)
      × ((id : String)
          → Dict.get id x.signatures
            ≡ ite (text_discrete c.id id) (some (signature cfg c.centroid))
                (Dict.get id m.index.signatures))
      × IsIndexed x

  get-update :
      (id j : String) (s : List String) (x : LshIndex)
      → Dict.get j (index.update id s x).signatures
        ≡ ite (text_discrete id j) (some s) (Dict.get j x.signatures)
  unfolding index.update index.add index.remove
  get-update id j s x =
      let after = Dict.get-put id j s (index.remove id x).signatures in
      elim (Option-cases (Dict.get id x.signatures)) [
        | inl e ↦ ground (arith, after, e)
        | inr (t, e) ↦ ground (arith, after, e, Dict.get-remove id j x.signatures)
      ]

  create-Fits :
      (phrase : ExtractedPhrase) (fresh : String) (vector : List V) (now : ℕ) (m : ClusterManager V)
      → IsLinked m
      → Dict.get fresh m.clusters ≡ none
      → Fits m phrase.key (
        create_cluster cfg phrase fresh vector now,
        phrase.key ∷ [],
        index.add fresh (signature cfg vector) m.index,
      )
  unfolding create_cluster index.add mem
  create-Fits phrase fresh vector now m l new = (
    ground arith,
    (λ p k. ground (arith, new, k)),
    (λ id. Dict.get-put fresh id (signature cfg vector) m.index.signatures),
    add-IsIndexed fresh (signature cfg vector) m.index (ground (arith, l.signed fresh, new))
        l.indexed,
  )

  merge-Fits :
      (phrase : ExtractedPhrase) (vector : List V) (added : List String) (c : Cluster V)
      (m : ClusterManager V)
      → IsLinked m
      → Dict.get c.id m.clusters ≡ some c
      → let c' = merge_into cfg phrase.key vector c in
        Fits m phrase.key (c', added, index.update c.id (signature cfg c'.centroid) m.index)
  unfolding merge_into
  merge-Fits phrase vector added c m l own = (
    ground (arith, mem-insert phrase.key phrase.key c.phrases),
    (λ p k. ground (arith, own, k, mem-insert phrase.key p c.phrases)),
    (λ id. get-update c.id id _ m.index),
    update-IsIndexed c.id _ m.index l.indexed,
  )

  joined-Fits :
      (phrase : ExtractedPhrase) (fresh : String) (vector : List V) (now : ℕ) (m : ClusterManager V)
      (found : Option (Cluster V))
      → IsLinked m
      → Dict.get fresh m.clusters ≡ none
      → IsKnown m found
      → Fits m phrase.key (joined cfg phrase fresh vector now m found)
  unfolding joined
  joined-Fits phrase fresh vector now m none l new known =
      create-Fits phrase fresh vector now m l new
  joined-Fits phrase fresh vector now m (some c) l new known =
      merge-Fits phrase vector [] c m l known

  -- An observation whose phrase has a vector succeeds, given an id that is new; it keeps the three
  -- maps together, and its phrase then leads to the cluster that is reported, which has the phrase.
  pub observe-IsLinked :
      (phrase : ExtractedPhrase) (observation : PhraseObservation V) (baseline : BaselineSnapshot V)
      (platform : String) (now : ℕ) (fresh : String) (m : ClusterManager V)
      → has_magnitude (cfg.vectorizer phrase.key) ≡ true
      → Dict.get fresh m.clusters ≡ none
      → IsLinked m
      → let (u, m') = observed cfg phrase observation baseline platform now fresh m in
        (observe cfg phrase observation baseline platform now fresh m ≡ some (u, m'))
        × IsLinked m'
        × (Dict.get phrase.key m'.phrase_to_cluster ≡ some u.topic_id)
        × (has_phrase phrase.key (Dict.get u.topic_id m'.clusters) ≡ true)
  unfolding observe observed
  observe-IsLinked phrase observation baseline platform now fresh m h new l =
      let vector = cfg.vectorizer phrase.key in
      let found = resolve_cluster cfg phrase.key vector m in
      let (own, grows, signs, indexed) =
        joined-Fits phrase fresh vector now m found l new
          (resolve_cluster-IsKnown phrase.key vector m l) in
      let l' = stored-IsLinked _ phrase.key _ m l own grows signs indexed in
      let leads = Dict.get-put_self phrase.key _ m.phrase_to_cluster in
      (rw h refl, l', leads, l'.linked phrase.key _ leads)
