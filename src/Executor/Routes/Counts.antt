-- ===== src/Executor/Routes/Counts.antt =====
-- What the statistics count.
use trenches.Base.{
  if◌then◌else◌, ℕ, max, ap, ◌∙◌, ◌/◌, arith, ◌+◌, ◌*◌, ◌≤◌, ◌<◌, ◌≡◌, refl, Option, none, some,
  Bool, true, false, not, ◌&&◌, String, List, [], ◌∷◌, filter, length, ◌==◌, ite, text_discrete,
  if_cases,
}
use native.Mathlib.Nat.{mod-lt, div-add-mod', mul-div_cancel}
use trenches.Base.Number.{Number}
use trenches.Executor.Routes.{
  RouteQuarantineConfig, RouteStat, RouteStats, Attempt, upsert, compute_window_start, is_row,
  record_route_attempt, record_all, finite_or_0,
}

abbrev pub attempts_of : {V : Type 0} → Option (RouteStat V) → ℕ
attempts_of none = 0
attempts_of (some row) = row.attempts

abbrev pub fails_of : {V : Type 0} → Option (RouteStat V) → ℕ
fails_of none = 0
fails_of (some row) = row.fails

is_row-table :
    {V : Type 0} (table : RouteStats V) (route other : String) (start from : ℕ)
    → is_row route start other from ≡ true
    → table route start ≡ table other from
unfolding text_discrete
is_row-table table route other start from h =
    elim (text_discrete route other)
        as (λ t.
          ite t true false && (start == from) ≡ true → table route start ≡ table other from) [
            | yes e ↦ λ k. ap (λ r. table r start) e ∙ ap (table other) (ground (arith, k))
            | no n ↦ λ k. ground (arith, k)
          ]
      h

module _ {V : Type 0} ⦃d : Number V⦄ where
  upsert-counts :
      (config : RouteQuarantineConfig V) (success : Bool) (x y : V) (found : Option (RouteStat V))
      → ((upsert config success x y found).attempts ≡ attempts_of found + 1)
        × ((upsert config success x y found).fails ≡ fails_of found + (if success then 0 else 1))
  unfolding upsert
  upsert-counts config success x y none = (refl, refl)
  upsert-counts config success x y (some row) = (refl, refl)

  abbrev pub concerns : String → ℕ → Attempt V → Bool
  concerns route start a = is_row a.route a.window_start route start

  abbrev pub failed : String → ℕ → Attempt V → Bool
  failed route start a = not a.success && concerns route start a

  attempts-record :
      (config : RouteQuarantineConfig V) (a : Attempt V) (table : RouteStats V) (route : String)
      (start : ℕ)
      → attempts_of ((record_route_attempt config a table).1 route start)
        ≡ attempts_of (table route start) + length (filter (concerns route start) (a ∷ []))
  unfolding record_route_attempt
  attempts-record config a table route start =
      let same = is_row-table table a.route route a.window_start start in
      let up =
        upsert-counts config a.success (finite_or_0 a.slip_real_bps) (finite_or_0 a.slip_exp_bps)
          (table a.route a.window_start) in
      if_cases
        (λ (r : Option (RouteStat V)).
          attempts_of r
          ≡ attempts_of (table route start) + length (filter (concerns route start) (a ∷ [])))
        (is_row a.route a.window_start route start) _ _ (λ e. ground (arith, same, up, e))
        (λ e. ground (arith, e))

  fails-record :
      (config : RouteQuarantineConfig V) (a : Attempt V) (table : RouteStats V) (route : String)
      (start : ℕ)
      → fails_of ((record_route_attempt config a table).1 route start)
        ≡ fails_of (table route start) + length (filter (failed route start) (a ∷ []))
  unfolding record_route_attempt
  fails-record config a table route start =
      let same = is_row-table table a.route route a.window_start start in
      let up =
        upsert-counts config a.success (finite_or_0 a.slip_real_bps) (finite_or_0 a.slip_exp_bps)
          (table a.route a.window_start) in
      if_cases
        (λ (r : Option (RouteStat V)).
          fails_of r ≡ fails_of (table route start) + length (filter (failed route start) (a ∷ [])))
        (is_row a.route a.window_start route start) _ _ (λ e. ground (arith, same, up, e))
        (λ e. ground (arith, e))

  counts-cons :
      (p : Attempt V → Bool) (a : Attempt V) (rest : List (Attempt V))
      → length (filter p (a ∷ rest)) ≡ length (filter p (a ∷ [])) + length (filter p rest)
  counts-cons p a rest = ground arith

  -- After any series of attempts, the row of a route and a window has counted each attempt of that
  -- route in that window, and of these each failure, and no other.
  pub record_all-Counts :
      (config : RouteQuarantineConfig V) (xs : List (Attempt V)) (table : RouteStats V)
      (route : String) (start : ℕ)
      → let row = record_all config xs table route start in
        (attempts_of row
          ≡ attempts_of (table route start) + length (filter (concerns route start) xs))
        × (fails_of row ≡ fails_of (table route start) + length (filter (failed route start) xs))
  unfolding record_all
  record_all-Counts config [] table route start = (omega arith, omega arith)
  record_all-Counts config (a ∷ rest) table route start =
      let table' = (record_route_attempt config a table).1 in
      let (later, later_fails) = record_all-Counts config rest table' route start in
      let now = attempts-record config a table route start in
      let now_fails = fails-record config a table route start in
      let split = counts-cons (concerns route start) a rest in
      let split_fails = counts-cons (failed route start) a rest in
      (omega (arith, later, now, split), omega (arith, later_fails, now_fails, split_fails))

window-IsWindow :
    (n w : ℕ) → 0 < w → (n / w * w ≤ n) × (n < n / w * w + w) × (n / w * w / w ≡ n / w)
window-IsWindow n w h =
    let rest = mod-lt n h in
    let parts = div-add-mod' n w in
    (omega (arith, rest, parts), omega (arith, rest, parts), mul-div_cancel (n / w) h)

-- The window that holds an instant starts at or before it and lasts beyond it, and it is the window
-- of its own start.
pub compute_window_start-IsWindow :
    (now window_minutes : ℕ)
    → let start = compute_window_start now window_minutes in
      (start ≤ now)
      × (now < start + max 1 window_minutes * 60000)
      × (compute_window_start start window_minutes ≡ start)
unfolding compute_window_start
compute_window_start-IsWindow now window_minutes =
    let w = max 1 window_minutes * 60 * 1000 in
    let (low, high, again) = window-IsWindow now w (omega arith) in
    (low, omega (arith, high), ap (λ k. k * w) again)
