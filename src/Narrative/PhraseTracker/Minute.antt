-- ===== src/Narrative/PhraseTracker/Minute.antt =====
-- The posts per minute that the tracker reports, over any history of observations of all phrases.
use trenches.Base.{
  ◌<◌, ◌≡◌, refl, ap, ◌∙◌, List, [], ◌∷◌, Option, none, some, String, ite, length, filter, arith,
  text_discrete,
}
use trenches.Base.Dict
use trenches.Base.Number.{Number, whole}
use trenches.Narrative.PhraseTracker.{
  PhraseEvent, PhraseState, PhraseTracker, ensure_state, observe, observe_state, empty_state,
  max_phrases,
}
use trenches.Narrative.PhraseTracker.Limit.{observed}
use trenches.Narrative.PhraseTracker.Window.{
  is_recent, chron, IsTimely, IsRoomy, rolling_posts-observed,
}

-- An observation of a phrase.
pub record Post (V : Type 0) : Type 0 where
  pub phrase : String
  pub event : PhraseEvent V

-- The events of a phrase; in a history the newest stands first.
unfoldable pub events_of : {V : Type 0} → String → List (Post V) → List (PhraseEvent V)
events_of phrase [] = []
events_of phrase (p ∷ ps) =
    ite (text_discrete p.phrase phrase) (p.event ∷ events_of phrase ps) (events_of phrase ps)

module _ {V : Type 0} ⦃d : Number V⦄ where
  abbrev pub empty_tracker : PhraseTracker V
  empty_tracker = record {
    phrases = [];
    global_count = 0;
    global_mean = whole 0;
    global_m2 = whole 0;
  }

  unfoldable pub run : List (Post V) → PhraseTracker V
  run [] = empty_tracker
  run (p ∷ ps) = (observe p.phrase p.event (run ps)).1

  -- At each observation the tracker was not full, so that no phrase had to make room.
  unfoldable pub HasRoom : List (Post V) → Type 0
  unfolding run
  HasRoom [] = Unit
  HasRoom (p ∷ ps) = (length (run ps).phrases < max_phrases) × HasRoom ps

  -- The state of a phrase with these events.
  abbrev seen : List (PhraseEvent V) → Option (PhraseState V)
  seen [] = none
  seen (e ∷ es) = some (observed (e ∷ es))

  ensure_state-seen :
      (phrase : String) (t : PhraseTracker V) (es : List (PhraseEvent V))
      → length t.phrases < max_phrases
      → Dict.get phrase t.phrases ≡ seen es
      → (ensure_state phrase t).0 ≡ observed es
  unfolding ensure_state observed
  ensure_state-seen phrase t [] room e = ground (arith, room, e)
  ensure_state-seen phrase t (x ∷ es) room e = ground (arith, e)

  put-ensured :
      (phrase k : String) (s : PhraseState V) (t : PhraseTracker V)
      → length t.phrases < max_phrases
      → Dict.get k (Dict.put phrase s (ensure_state phrase t).1.phrases)
        ≡ Dict.get k (Dict.put phrase s t.phrases)
  unfolding ensure_state
  put-ensured phrase k s t room = ground (
    arith,
    room,
    Dict.get-put phrase k s t.phrases,
    Dict.get-put phrase k empty_state t.phrases,
    Dict.get-put phrase k s (Dict.put phrase empty_state t.phrases),
  )

  observe-put :
      (phrase k : String) (e : PhraseEvent V) (t : PhraseTracker V)
      → length t.phrases < max_phrases
      → Dict.get k (observe phrase e t).1.phrases
        ≡ Dict.get k (Dict.put phrase (observe_state e (ensure_state phrase t).0) t.phrases)
  unfolding observe
  observe-put phrase k e t room =
      put-ensured phrase k (observe_state e (ensure_state phrase t).0) t room

  seen-cons :
      (phrase k : String) (e : PhraseEvent V) (ps : List (Post V)) (same : Dec (phrase ≡ k))
      → ite same (some (observe_state e (observed (events_of phrase ps)))) (seen (events_of k ps))
        ≡ seen (ite same (e ∷ events_of k ps) (events_of k ps))
  unfolding observed
  seen-cons phrase k e ps (yes same) =
      ap (λ j. some (observe_state e (observed (events_of j ps)))) same
  seen-cons phrase k e ps (no ne) = refl

  -- A tracker that was never full has each phrase in the state that its own observations give.
  run-seen :
      (ps : List (Post V)) (k : String)
      → HasRoom ps
      → Dict.get k (run ps).phrases ≡ seen (events_of k ps)
  unfolding run HasRoom events_of Dict.get
  run-seen [] k h = refl
  run-seen (p ∷ ps) k (room, h) =
      let old = ensure_state-seen p.phrase (run ps) _ room (run-seen ps p.phrase h) in
      let states = (run ps).phrases in
      observe-put p.phrase k p.event (run ps) room
      ∙ ap (λ s. Dict.get k (Dict.put p.phrase (observe_state p.event s) states)) old
      ∙ Dict.get-put p.phrase k _ states
      ∙ ap
          (λ s.
            ite (text_discrete p.phrase k)
              (some (observe_state p.event (observed (events_of p.phrase ps)))) s)
          (run-seen ps k h)
      ∙ seen-cons p.phrase k p.event ps (text_discrete p.phrase k)

  observe-rolling :
      (phrase : String) (e : PhraseEvent V) (t : PhraseTracker V)
      → (observe phrase e t).0.posts_per_minute
        ≡ (observe_state e (ensure_state phrase t).0).rolling_posts
  unfolding observe
  observe-rolling phrase e t = refl

  -- As long as no phrase had to make room for another, and the observations of a phrase come in the
  -- order of time and each finds room below the hard limit on events, the posts per minute that an
  -- observation reports are the observations of its phrase in the last minute, itself included.
  pub posts_per_minute :
      (p : Post V) (ps : List (Post V))
      → HasRoom (p ∷ ps)
      → IsTimely (p.event ∷ events_of p.phrase ps)
      → IsRoomy (p.event ∷ events_of p.phrase ps)
      → (observe p.phrase p.event (run ps)).0.posts_per_minute
        ≡ length (filter (is_recent p.event.timestamp) (chron (p.event ∷ events_of p.phrase ps)))
  unfolding HasRoom observed
  posts_per_minute p ps (room, h) timely roomy =
      let old = ensure_state-seen p.phrase (run ps) _ room (run-seen ps p.phrase h) in
      observe-rolling p.phrase p.event (run ps)
      ∙ ap (λ s. (observe_state p.event s).rolling_posts) old
      ∙ rolling_posts-observed p.event (events_of p.phrase ps) timely roomy
