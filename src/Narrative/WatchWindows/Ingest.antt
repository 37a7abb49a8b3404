-- ===== src/Narrative/WatchWindows/Ingest.antt =====
-- When a topic's window is open.
use trenches.Base.{
  ℕ, ◌+◌, ◌*◌, ◌≤◌, ◌≡◌, Option, none, some, Bool, true, false, not, String, ltb, leb, ite, arith,
  text_discrete, Option-cases, inl, inr, if◌then◌else◌,
}
use trenches.Base.Dict
use trenches.Base.Dict.{Dict, IsDict}
use trenches.Base.Number.{Number}
use trenches.Narrative.WatchWindows.{
  Dates, WatchWindowState, TopicWindowRecord, WatchWindowManager, Update, get_window, prune, ingest,
  created, refreshed_state,
}

module _ {V : Type 0} (dates : Dates) where
  abbrev pub is_some : Option (TopicWindowRecord V) → Bool
  is_some none = false
  is_some (some r) = true

  pub is_open : String → ℕ → WatchWindowManager V → Bool
  is_open topic_id now c = is_some (get_window dates topic_id now c)

  module _ ⦃d : Number V⦄ where
    -- A score at the threshold or above opens the topic's window, or keeps it open, from now for the
    -- seconds of the update and not longer. Any other score leaves the time of its closing as it
    -- was. No other topic is touched.
    pub is_open-ingest :
        (u : Update V) (now later : ℕ) (topic_id : String) (c : WatchWindowManager V)
        → is_open topic_id later (ingest dates u now c).0
          ≡ ite
              (text_discrete u.topic_id topic_id)
              (if d.le c.open_threshold u.sss
                then ltb later (now + u.window_seconds * 1000)
                else is_open topic_id later c)
              (is_open topic_id later c)
    unfolding is_open ingest get_window
    is_open-ingest u now later topic_id c =
        let put = λ (s : WatchWindowState V). Dict.get-put u.topic_id topic_id s c.windows in
        elim (Option-cases (Dict.get u.topic_id c.windows)) [
          | inl e ↦ ground (arith, put (created u now))
          | inr (s, e) ↦ ground (
            arith,
            put (refreshed_state u now s),
            put (record s { sss = u.sss; novelty = u.novelty }),
          )
        ]

  -- To prune is not seen at that time or later: it closes only what is over.
  pub get_window-prune :
      (c : WatchWindowManager V) (now later : ℕ) (topic_id : String)
      → IsDict c.windows
      → now ≤ later
      → get_window dates topic_id later (prune dates now c).0 ≡ get_window dates topic_id later c
  unfolding get_window prune
  get_window-prune c now later topic_id h l =
      ground (arith, Dict.get-keep (λ topic_id s. not (leb s.expires_at now)) topic_id c.windows h)
