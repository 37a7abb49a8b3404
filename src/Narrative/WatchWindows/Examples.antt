-- ===== src/Narrative/WatchWindows/Examples.antt =====
-- Windows at concrete times, with a way of writing dates that reads back.
use text.Mathlib.TextPositions.{len-append}
use trenches.Base.{◌∙◌, ℕ, zero, suc, ap, ◌≡◌, refl, List, [], ◌∷◌, some, String, arith}
use trenches.Base.Dict
use trenches.Base.Number.{whole}
use trenches.Base.Fixed.{Fixed, fixed_number}
use trenches.Narrative.WatchWindows.{
  Dates, WatchWindowState, WatchWindowManager, Update, active, bootstrap, get_window,
}
use trenches.Narrative.WatchWindows.Protocol.{Call, ingests, prunes, accept, holds, run, accept-run}
use trenches.Narrative.WatchWindows.Restart.{ReadsBack, without_windows, get_window-bootstrap}
-- A date is written with as many strokes as there are milliseconds.
use Prim.Native.String.{◌++◌, len}

abbrev strokes : ℕ → String
strokes zero = ""
strokes (suc n) = "." ++ strokes n

abbrev dates : Dates
dates = record { to_iso_string = strokes; parse = λ s. some (len s) }

len-strokes : (n : ℕ) → len (strokes n) ≡ n
len-strokes zero = refl
len-strokes (suc n) = len-append "." (strokes n) ∙ omega (arith, len-strokes n)

abbrev window : WatchWindowState Fixed
window = record {
  topic_id = "cats";
  window_id = "cats";
  opened_at = 100;
  expires_at = 60_100;
  last_refresh = 100;
  sss = whole 3;
  novelty = whole 1;
}

abbrev manager : WatchWindowManager Fixed
manager = record {
  refresh_ms = 5000;
  open_threshold = whole 2;
  sustain_threshold = whole 1;
  windows = ("cats", window) ∷ [];
}

abbrev dogs : Update Fixed
dogs = record { topic_id = "dogs"; sss = whole 2; novelty = whole 1; window_seconds = 30 }

abbrev calls : List (Call Fixed)
calls = ingests dogs 1000 ∷ prunes 62_000 ∷ []

accept-run_example :
    accept "cats" (run dates calls manager).1 (holds "cats" manager)
    ≡ some (holds "cats" (run dates calls manager).0)
unfolding Dict.get
accept-run_example = accept-run dates "cats" calls manager (refl, refl, tt)

dates-ReadsBack : ReadsBack dates
dates-ReadsBack t h = ap some (len-strokes t)

get_window-bootstrap_example :
    get_window dates "cats" 300
      (bootstrap dates (active dates 200 manager) (without_windows manager))
    ≡ get_window dates "cats" 300 manager
unfolding Dict.get
get_window-bootstrap_example =
    get_window-bootstrap dates dates-ReadsBack manager 200 300 "cats" (refl, refl, tt)
      (record { opened = omega arith; expires = omega arith; refresh = omega arith }, tt)
      (omega arith)
