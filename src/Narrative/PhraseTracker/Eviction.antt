-- ===== src/Narrative/PhraseTracker/Eviction.antt =====
-- Which phrase makes room for a new one.
use trenches.Base.{
  ◌+◌, ◌≤◌, ◌≡◌, ◌≢◌, refl, [], ◌∷◌, none, some, String, length, arith, text_discrete, ap, if_pos,
}
use trenches.Base.Dict
use trenches.Base.Dict.{Dict, IsDict}
use trenches.Base.Number.{Number}
use trenches.Narrative.PhraseTracker.{
  PhraseEvent, PhraseState, PhraseTracker, ensure_state, observe, observe_state, empty_state,
  delete_first, max_phrases,
}

module _ {V : Type 0} ⦃d : Number V⦄ where
  length-put-old :
      (k : String) (s t : PhraseState V) (m : Dict (PhraseState V))
      → Dict.get k m ≡ some s
      → length (Dict.put k t m) ≡ length m
  unfolding Dict.get Dict.put
  length-put-old k s t [] e = ground arith
  length-put-old k s t ((i, w) ∷ m) e = ground (arith, length-put-old k s t m)

  length-put-new :
      (k : String) (t : PhraseState V) (m : Dict (PhraseState V))
      → Dict.get k m ≡ none
      → length (Dict.put k t m) ≡ length m + 1
  unfolding Dict.get Dict.put
  length-put-new k t [] e = refl
  length-put-new k t ((i, w) ∷ m) e = ground (arith, length-put-new k t m)

  -- Nothing but the new phrase is in the way of the oldest one.
  observe-old :
      (k : String) (e : PhraseEvent V) (t : PhraseTracker V) (s : PhraseState V)
      (rest : Dict (PhraseState V))
      → t.phrases ≡ (k, s) ∷ rest
      → (observe k e t).1.phrases ≡ (k, observe_state e s) ∷ rest
  unfolding observe ensure_state Dict.get Dict.put
  observe-old k e t s rest h = ground arith

  observe-new :
      (k p : String) (e : PhraseEvent V) (t : PhraseTracker V) (s : PhraseState V)
      (rest : Dict (PhraseState V))
      → t.phrases ≡ (k, s) ∷ rest
      → k ≢ ""
      → k ≢ p
      → max_phrases ≤ length t.phrases
      → Dict.get p rest ≡ none
      → Dict.get k (observe p e t).1.phrases ≡ none
  unfolding observe ensure_state Dict.get
  observe-new k p e t s rest h n ne full new = ground (
    arith,
    Dict.get-put p k (observe_state e empty_state) (Dict.put p empty_state (Dict.remove k rest)),
    Dict.get-put p k empty_state (Dict.remove k rest),
    Dict.get-remove k k rest,
  )

  -- With all places taken, a new phrase takes the place of the phrase that was first seen longest
  -- ago, also when that one has just been observed: not of the one least recently used.
  pub observe_evicts_in_use :
      (k p : String) (e e' : PhraseEvent V) (t : PhraseTracker V) (s : PhraseState V)
      (rest : Dict (PhraseState V))
      → t.phrases ≡ (k, s) ∷ rest
      → k ≢ ""
      → k ≢ p
      → max_phrases ≤ length t.phrases
      → Dict.get p rest ≡ none
      → let t' = (observe k e t).1 in
        (Dict.get k t'.phrases ≡ some (observe_state e s))
        × (Dict.get k (observe p e' t').1.phrases ≡ none)
  unfolding Dict.get
  observe_evicts_in_use k p e e' t s rest h n ne full new =
      let t' = (observe k e t).1 in
      let same = observe-old k e t s rest h in
      (
        rw same (if_pos (text_discrete k k) refl _ _),
        observe-new k p e' t' (observe_state e s) rest same n ne
            (omega (arith, ap length same, ap length h)) new,
      )

  length-remove-le : (k : String) (m : Dict (PhraseState V)) → length (Dict.remove k m) ≤ length m
  unfolding Dict.remove
  length-remove-le k [] = omega arith
  length-remove-le k ((i, w) ∷ m) = ground (arith, length-remove-le k m)

  delete_first-length :
      (m : Dict (PhraseState V))
      → Dict.get "" m ≡ none
      → max_phrases ≤ length m
      → length (delete_first m) + 1 ≤ length m
  unfolding delete_first Dict.get
  delete_first-length [] n h = absurd (omega arith)
  delete_first-length ((k, s) ∷ m) n h = ground (arith, length-remove-le k m)

  delete_first-get :
      (p : String) (m : Dict (PhraseState V))
      → Dict.get p m ≡ none
      → Dict.get p (delete_first m) ≡ none
  unfolding delete_first Dict.get
  delete_first-get p [] e = refl
  delete_first-get p ((k, s) ∷ m) e = ground (arith, Dict.get-remove k p m)

  room-length :
      (phrase : String) (t : PhraseTracker V)
      → length t.phrases ≤ max_phrases
      → Dict.get "" t.phrases ≡ none
      → length (ensure_state phrase t).1.phrases ≤ max_phrases
  unfolding ensure_state
  room-length phrase t l n = ground (
    arith,
    delete_first-length t.phrases n,
    delete_first-get phrase t.phrases,
    length-put-new phrase empty_state t.phrases,
    length-put-new phrase empty_state (delete_first t.phrases),
  )

  ensure_state-get :
      (phrase : String) (t : PhraseTracker V)
      → Dict.get phrase (ensure_state phrase t).1.phrases ≡ some (ensure_state phrase t).0
  unfolding ensure_state
  ensure_state-get phrase t = ground (
    arith,
    Dict.get-put phrase phrase empty_state t.phrases,
    Dict.get-put phrase phrase empty_state (delete_first t.phrases),
  )

  -- The tracker never holds more than its limit of phrases, if none of them is the empty string.
  pub length-observe :
      (phrase : String) (e : PhraseEvent V) (t : PhraseTracker V)
      → length t.phrases ≤ max_phrases
      → Dict.get "" t.phrases ≡ none
      → length (observe phrase e t).1.phrases ≤ max_phrases
  unfolding observe
  length-observe phrase e t l n =
      let (s, ensured) = ensure_state phrase t in
      ground (
        arith,
        room-length phrase t l n,
        length-put-old phrase s (observe_state e s) ensured.phrases (ensure_state-get phrase t),
      )
