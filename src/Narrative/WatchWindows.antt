-- ===== src/Narrative/WatchWindows.antt =====
-- services/narrative-miner/src/watchWindows.ts. Times are whole milliseconds, `windowSeconds` a whole
-- number of seconds, scores any numbers.
pub mod Ingest
pub mod Protocol
pub mod Restart
mod Examples
use trenches.Base.{
  ℕ, ◌+◌, ◌*◌, List, [], ◌∷◌, Option, none, some, Bool, true, false, not, ◌||◌, String, ltb, leb,
  if◌then◌else◌,
}
use trenches.Base.Dict
use trenches.Base.Dict.{Dict}
use trenches.Base.Number.{Number}

-- `Date.prototype.toISOString` and `Date.parse`; `none` is NaN.
pub record Dates : Type 0 where
  pub to_iso_string : ℕ → String
  pub parse : String → Option ℕ

pub record WatchWindowState (V : Type 0) : Type 0 where
  pub topic_id : String
  pub window_id : String
  pub opened_at : ℕ
  pub expires_at : ℕ
  pub last_refresh : ℕ
  pub sss : V
  pub novelty : V

pub record TopicWindowRecord (V : Type 0) : Type 0 where
  pub window_id : String
  pub topic_id : String
  pub opened_at : String
  pub expires_at : String
  pub last_refresh : String
  pub sss : V
  pub novelty : V

pub data WatchWindowEvent (V : Type 0) : Type 0 where
  opened : TopicWindowRecord V → WatchWindowEvent V
  refreshed : TopicWindowRecord V → WatchWindowEvent V
  closed : TopicWindowRecord V → WatchWindowEvent V

pub record WatchWindowManager (V : Type 0) : Type 0 where
  pub refresh_ms : ℕ
  pub open_threshold : V
  pub sustain_threshold : V
  pub windows : Dict (WatchWindowState V)

pub record Update (V : Type 0) : Type 0 where
  pub topic_id : String
  pub sss : V
  pub novelty : V
  pub window_seconds : ℕ

module _ {V : Type 0} where
  created : Update V → ℕ → WatchWindowState V
  created u now = record {
    topic_id = u.topic_id;
    window_id = u.topic_id;
    opened_at = now;
    expires_at = now + u.window_seconds * 1000;
    last_refresh = now;
    sss = u.sss;
    novelty = u.novelty;
  }

  refreshed_state : Update V → ℕ → WatchWindowState V → WatchWindowState V
  refreshed_state u now s = record s {
    expires_at = now + u.window_seconds * 1000;
    last_refresh = now;
    sss = u.sss;
    novelty = u.novelty;
  }

module _ {V : Type 0} ⦃d : Number V⦄ where
  open d use {lt}

  -- `now - state.lastRefresh >= refreshMs` is written without the difference.
  should_emit : Update V → ℕ → WatchWindowManager V → WatchWindowState V → Bool
  should_emit u now c s = leb (s.last_refresh + c.refresh_ms) now || lt s.sss u.sss

  below :
      Update V → WatchWindowManager V → Option (WatchWindowState V) → Option (WatchWindowState V)
  below u c none = none
  below u c (some s) =
      if lt u.sss c.sustain_threshold
      then some (record s { sss = u.sss; novelty = u.novelty })
      else none

module _ {V : Type 0} (dates : Dates) where
  unfoldable pub to_record : WatchWindowState V → TopicWindowRecord V
  to_record s = record {
    window_id = s.window_id;
    topic_id = s.topic_id;
    opened_at = dates.to_iso_string s.opened_at;
    expires_at = dates.to_iso_string s.expires_at;
    last_refresh = dates.to_iso_string s.last_refresh;
    sss = s.sss;
    novelty = s.novelty;
  }

  -- `none` is a record with a date that cannot be read, which is skipped.
  unfoldable pub from_record : TopicWindowRecord V → Option (WatchWindowState V)
  from_record r = elim (dates.parse r.opened_at) [
    | none ↦ none
    | some opened_at ↦ elim (dates.parse r.expires_at) [
      | none ↦ none
      | some expires_at ↦ elim (dates.parse r.last_refresh) [
        | none ↦ none
        | some last_refresh ↦ some (record {
          topic_id = r.topic_id;
          window_id = r.window_id;
          opened_at = opened_at;
          expires_at = expires_at;
          last_refresh = last_refresh;
          sss = r.sss;
          novelty = r.novelty;
        })
      ]
    ]
  ]

  load : List (TopicWindowRecord V) → Dict (WatchWindowState V) → Dict (WatchWindowState V)
  unfolding from_record
  load [] m = m
  load (r ∷ rs) m = elim (from_record r) [
    | none ↦ load rs m
    | some s ↦ load rs (Dict.put r.topic_id s m)
  ]

  unfoldable pub bootstrap :
      List (TopicWindowRecord V) → WatchWindowManager V → WatchWindowManager V
  unfolding load
  bootstrap rs c = record c { windows = load rs c.windows }

  active_from : ℕ → Dict (WatchWindowState V) → List (TopicWindowRecord V)
  unfolding to_record
  active_from now [] = []
  active_from now ((topic_id, s) ∷ m) =
      if ltb now s.expires_at then to_record s ∷ active_from now m else active_from now m

  unfoldable pub active : ℕ → WatchWindowManager V → List (TopicWindowRecord V)
  unfolding active_from
  active now c = active_from now c.windows

  unfoldable pub get_window : String → ℕ → WatchWindowManager V → Option (TopicWindowRecord V)
  unfolding to_record
  get_window topic_id now c = elim (Dict.get topic_id c.windows) [
    | none ↦ none
    | some s ↦ if leb s.expires_at now then none else some (to_record s)
  ]

  -- The windows that `prune` deletes, as the events that it reports.
  closed_from : ℕ → Dict (WatchWindowState V) → List (WatchWindowEvent V)
  unfolding to_record
  closed_from now [] = []
  closed_from now ((topic_id, s) ∷ m) =
      if leb s.expires_at now then closed (to_record s) ∷ closed_from now m else closed_from now m

  unfoldable pub prune : ℕ → WatchWindowManager V → WatchWindowManager V × List (WatchWindowEvent V)
  unfolding closed_from
  prune now c = (
    record c { windows = Dict.keep (λ topic_id s. not (leb s.expires_at now)) c.windows },
    closed_from now c.windows,
  )

  module _ ⦃d : Number V⦄ where
    open d use {le}

    -- The states are objects that the map shares: to change one is to put it again.
    above :
        Update V
        → ℕ
        → WatchWindowManager V
        → Option (WatchWindowState V)
        → WatchWindowState V × List (WatchWindowEvent V)
    unfolding to_record created refreshed_state should_emit
    above u now c none = let s = created u now in (s, opened (to_record s) ∷ [])
    above u now c (some s) =
        let s' = refreshed_state u now s in
        (s', if should_emit u now c s then refreshed (to_record s') ∷ [] else [])

    unfoldable pub ingest :
        Update V → ℕ → WatchWindowManager V → WatchWindowManager V × List (WatchWindowEvent V)
    unfolding above below
    ingest u now c =
        let state = Dict.get u.topic_id c.windows in
        let (s', events) = above u now c state in
        if le c.open_threshold u.sss
        then (record c { windows = Dict.put u.topic_id s' c.windows }, events)
        else (
          elim (below u c state) [
            | none ↦ c
            | some s ↦ record c { windows = Dict.put u.topic_id s c.windows }
          ],
          [],
        )
