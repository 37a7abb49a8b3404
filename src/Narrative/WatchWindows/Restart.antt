-- ===== src/Narrative/WatchWindows/Restart.antt =====
-- A restart: the windows are written down as records and read back.
use trenches.Base.{
  ℕ, ◌≤◌, ◌≡◌, refl, [], ◌∷◌, Option, none, some, String, ltb, arith, if◌then◌else◌,
}
use trenches.Base.Dict
use trenches.Base.Dict.{Dict}
use trenches.Narrative.WatchWindows.{
  Dates, WatchWindowState, WatchWindowManager, to_record, from_record, load, bootstrap, active_from,
  active, get_window,
}
use trenches.Narrative.WatchWindows.Protocol.{IsKeyed}

-- The greatest time value of ECMAScript; `toISOString` throws beyond it.
abbrev pub max_time : ℕ
max_time = 8_640_000_000_000_000

pub record IsDated {V : Type 0} (s : WatchWindowState V) : Type 0 where
  pub opened : s.opened_at ≤ max_time
  pub expires : s.expires_at ≤ max_time
  pub refresh : s.last_refresh ≤ max_time

abbrev pub AllDated : {V : Type 0} → Dict (WatchWindowState V) → Type 0
AllDated [] = Unit
AllDated ((k, s) ∷ m) = IsDated s × AllDated m

abbrev pub ReadsBack : Dates → Type 0
ReadsBack dates = (t : ℕ) → t ≤ max_time → dates.parse (dates.to_iso_string t) ≡ some t

abbrev pub without_windows : {V : Type 0} → WatchWindowManager V → WatchWindowManager V
without_windows c = record c { windows = [] }

module _ {V : Type 0} (dates : Dates) (reads_back : ReadsBack dates) where
  from_record-to_record :
      (s : WatchWindowState V) → IsDated s → from_record dates (to_record dates s) ≡ some s
  unfolding from_record to_record
  from_record-to_record s v = ground (
    arith,
    reads_back s.opened_at v.opened,
    reads_back s.expires_at v.expires,
    reads_back s.last_refresh v.refresh,
  )

  abbrev live :
      ℕ → Option (WatchWindowState V) → Option (WatchWindowState V) → Option (WatchWindowState V)
  live now none other = other
  live now (some s) other = if ltb now s.expires_at then some s else other

  load-active_from :
      (k : String) (now : ℕ) (m acc : Dict (WatchWindowState V))
      → IsKeyed m
      → AllDated m
      → Dict.get k (load dates (active_from dates now m) acc)
        ≡ live now (Dict.get k m) (Dict.get k acc)
  unfolding load active_from Dict.get
  load-active_from k now [] acc h v = refl
  load-active_from k now ((j, s) ∷ m) acc h v = ground (
    arith,
    from_record-to_record s v.0,
    load-active_from k now m (Dict.put j s acc) h.2 v.1,
    load-active_from k now m (Dict.put (to_record dates s).topic_id s acc) h.2 v.1,
    load-active_from k now m acc h.2 v.1,
    Dict.get-put j k s acc,
  )

  -- A manager that starts from the active windows of another shows, at that time and later, the
  -- same window of every topic.
  pub get_window-bootstrap :
      (c : WatchWindowManager V) (now later : ℕ) (topic_id : String)
      → IsKeyed c.windows
      → AllDated c.windows
      → now ≤ later
      → get_window dates topic_id later (bootstrap dates (active dates now c) (without_windows c))
        ≡ get_window dates topic_id later c
  unfolding bootstrap active get_window Dict.get
  get_window-bootstrap c now later topic_id h v l =
      ground (arith, load-active_from topic_id now c.windows [] h v)
