-- ===== src/Narrative/PhraseTracker.antt =====
-- services/narrative-miner/src/phraseTracker.ts. Timestamps are whole milliseconds; engagements and
-- the statistics made of them are any numbers. Subtraction of the window from a time is written as
-- addition on the other side, since `-` on ℕ stops at 0.
pub mod Window
pub mod Minute
pub mod Limit
pub mod Eviction
mod Examples
use trenches.Base.{
  ℕ, zero, suc, ◌+◌, ◌-◌, ◌*◌, List, [], ◌∷◌, ◌++◌, Option, none, some, Bool, true, false, not,
  ◌&&◌, String, ltb, leb, ◌==◌, ite, length, drop, if◌then◌else◌, text_discrete,
}
use trenches.Base.Dict
use trenches.Base.Dict.{Dict}
use trenches.Base.Number.{Number, whole}

abbrev pub window_ms : ℕ
window_ms = 60_000

abbrev pub author_ttl_ms : ℕ
author_ttl_ms = 60_000

abbrev pub max_events_per_phrase : ℕ
max_events_per_phrase = 10_000

abbrev pub max_phrases : ℕ
max_phrases = 5000

-- `Math.floor(MAX_EVENTS_PER_PHRASE * 0.1)`.
abbrev pub remove_count : ℕ
remove_count = 1000

pub record PhraseEvent (V : Type 0) : Type 0 where
  pub timestamp : ℕ
  pub engagement : V
  pub author_id : String

pub record PhraseState (V : Type 0) : Type 0 where
  pub events : List (PhraseEvent V)
  pub head : ℕ
  pub author_last_seen : Dict ℕ
  pub rolling_engagement : V
  pub rolling_posts : ℕ
  pub total_count : ℕ
  pub last_timestamp : ℕ

pub record PhraseObservation (V : Type 0) : Type 0 where
  pub phrase : String
  pub timestamp : ℕ
  pub posts_per_minute : ℕ
  pub unique_authors : ℕ
  pub average_engagement : V
  pub z_score : V
  pub recency_seconds : V

pub record PhraseTracker (V : Type 0) : Type 0 where
  pub phrases : Dict (PhraseState V)
  pub global_count : ℕ
  pub global_mean : V
  pub global_m2 : V

-- `pruneAuthors`.
unfoldable pub prune_authors : ℕ → Dict ℕ → Dict ℕ
prune_authors now cache =
    Dict.keep (λ author_id last_seen. leb now (last_seen + author_ttl_ms)) cache

module _ {V : Type 0} ⦃d : Number V⦄ where
  open d use {ratio, plus, minus, times, over, max, sqrt}

  unfoldable pub empty_state : PhraseState V
  empty_state = record {
    events = [];
    head = 0;
    author_last_seen = [];
    rolling_engagement = whole 0;
    rolling_posts = 0;
    total_count = 0;
    last_timestamp = 0;
  }

  -- The loop of `prune` over the events from `head` on.
  unfoldable pub expire : ℕ → List (PhraseEvent V) → PhraseState V → PhraseState V
  expire now [] s = s
  expire now (e ∷ es) s =
      let rest = expire now es (record s {
        rolling_engagement = minus s.rolling_engagement e.engagement;
        rolling_posts = s.rolling_posts - 1;
        head = s.head + 1;
      }) in
      if leb now (e.timestamp + window_ms) then s else rest

  -- `state.head > state.events.length / 2` compares without rounding.
  unfoldable pub compact : PhraseState V → PhraseState V
  compact s =
      if ltb 32 s.head && ltb (length s.events) (s.head * 2)
      then record s { events = drop s.head s.events; head = 0 }
      else s

  unfoldable pub prune : ℕ → PhraseState V → PhraseState V
  unfolding expire compact
  prune now s = compact (expire now (drop s.head s.events) s)

  -- The hard limit of `observe` on the events of a phrase.
  unfoldable pub enforce_limit : PhraseState V → PhraseState V
  enforce_limit s =
      if leb max_events_per_phrase (length s.events)
      then record s { events = drop remove_count s.events; head = s.head - remove_count }
      else s

  unfoldable pub append : PhraseEvent V → PhraseState V → PhraseState V
  append e s = record s {
    events = s.events ++ (e ∷ []);
    rolling_engagement = plus s.rolling_engagement e.engagement;
    rolling_posts = s.rolling_posts + 1;
    total_count = s.total_count + 1;
    last_timestamp = e.timestamp;
  }

  -- What `observe` does to the state of its phrase.
  unfoldable pub observe_state : PhraseEvent V → PhraseState V → PhraseState V
  observe_state e s =
      let s' = append e (enforce_limit (prune e.timestamp s)) in
      record s' {
        author_last_seen =
            prune_authors e.timestamp (Dict.put e.author_id e.timestamp s'.author_last_seen);
      }

  update_global : V → PhraseTracker V → PhraseTracker V
  update_global engagement t =
      let count = t.global_count + 1 in
      let delta = minus engagement t.global_mean in
      let mean = plus t.global_mean (over delta (whole count)) in
      record t {
        global_count = count;
        global_mean = mean;
        global_m2 = plus t.global_m2 (times delta (minus engagement mean));
      }

  compute_z_score : V → PhraseTracker V → V
  compute_z_score value t =
      if ltb t.global_count 2
      then whole 0
      else over (minus value t.global_mean)
          (sqrt (max (over t.global_m2 (whole (t.global_count - 1))) (ratio 1 1_000_000)))

  -- `phrases.keys().next().value`, which is deleted if it is truthy.
  delete_first : Dict (PhraseState V) → Dict (PhraseState V)
  delete_first [] = []
  delete_first ((k, s) ∷ m) = ite (text_discrete k "") ((k, s) ∷ m) (Dict.remove k m)

  unfoldable pub ensure_state : String → PhraseTracker V → PhraseState V × PhraseTracker V
  unfolding delete_first
  ensure_state phrase t = elim (Dict.get phrase t.phrases) [
    | some existing ↦ (existing, t)
    | none ↦
        let room =
          if leb max_phrases (length t.phrases) then delete_first t.phrases else t.phrases in
        (empty_state, record t { phrases = Dict.put phrase empty_state room })
  ]

  -- The state is an object that the map shares: to change it is to put it again.
  unfoldable pub observe :
      String → PhraseEvent V → PhraseTracker V → PhraseObservation V × PhraseTracker V
  unfolding update_global compute_z_score
  observe phrase e t =
      let (s, ensured) = ensure_state phrase t in
      let s' = observe_state e s in
      let t' =
        update_global e.engagement
          (record ensured { phrases = Dict.put phrase s' ensured.phrases }) in
      let average =
        if s'.rolling_posts == 0
        then whole 0
        else over s'.rolling_engagement (whole s'.rolling_posts) in
      (
        record {
          phrase = phrase;
          timestamp = e.timestamp;
          posts_per_minute = s'.rolling_posts;
          unique_authors = length s'.author_last_seen;
          average_engagement = average;
          z_score = compute_z_score average t';
          recency_seconds =
              if s.last_timestamp == 0
              then whole 0
              else max (whole 0) (over (whole (e.timestamp - s.last_timestamp)) (whole 1000));
        },
        t',
      )
