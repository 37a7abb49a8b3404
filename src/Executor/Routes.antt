-- ===== src/Executor/Routes.antt =====
-- services/executor/src/routeQuarantine.ts, with `upsertRouteStat` and `getRouteStats` of
-- packages/persistence/src/sqlite.ts. The table is a function of the route and the start of the window.
pub mod Counts
use trenches.Base.{
  ℕ, suc, ◌+◌, ◌*◌, ◌/◌, Option, none, some, Bool, true, false, not, ◌&&◌, String, leb, ◌==◌,
  if◌then◌else◌, ite, text_discrete, max as max_ℕ, List, [], ◌∷◌, ◌or_else◌,
}
use trenches.Base.Number.{Number, whole}

pub record RouteQuarantineConfig (V : Type 0) : Type 0 where
  pub window_minutes : ℕ
  pub min_attempts : ℕ
  pub fail_rate_threshold : V
  pub slip_excess_weight : V
  pub fail_rate_weight : V

pub record RouteStat (V : Type 0) : Type 0 where
  pub attempts : ℕ
  pub fails : ℕ
  pub avg_slip_real_bps : V
  pub avg_slip_exp_bps : V
  pub penalty : V

pub record RouteStatSnapshot (V : Type 0) : Type 0 where
  pub stat : RouteStat V
  pub fail_rate : V
  pub excluded : Bool

pub record Attempt (V : Type 0) : Type 0 where
  pub route : String
  pub window_start : ℕ
  pub success : Bool
  pub slip_real_bps : V
  pub slip_exp_bps : V

-- The table `route_stats`, whose primary key is the route and the start of the window.
abbrev pub RouteStats : Type 0 → Type 0
RouteStats V = String → ℕ → Option (RouteStat V)

unfoldable pub compute_window_start : ℕ → ℕ → ℕ
compute_window_start now window_minutes =
    let window_ms = max_ℕ 1 window_minutes * 60 * 1000 in now / window_ms * window_ms

abbrev pub is_row : String → ℕ → String → ℕ → Bool
is_row route start other from = ite (text_discrete route other) true false && (start == from)

module _ {V : Type 0} ⦃d : Number V⦄ where
  open d use {plus, minus, times, over, lt, max, is_finite}

  abbrev rate : ℕ → ℕ → V
  rate fails attempts = if leb 1 attempts then over (whole fails) (whole attempts) else whole 0

  unfoldable pub snapshot : RouteQuarantineConfig V → RouteStat V → RouteStatSnapshot V
  snapshot config row =
      let fail_rate = rate row.fails row.attempts in
      record {
        stat = row;
        fail_rate = fail_rate;
        excluded = leb config.min_attempts row.attempts && lt config.fail_rate_threshold fail_rate;
      }

  -- The entry of a route in the map that is returned.
  unfoldable pub load_route_stats :
      RouteQuarantineConfig V → ℕ → RouteStats V → String → Option (RouteStatSnapshot V)
  load_route_stats config window_start table route = elim (table route window_start) [
    | none ↦ none
    | some row ↦ some (snapshot config row)
  ]

  abbrev pub finite_or_0 : V → V
  finite_or_0 x = if is_finite x then x else whole 0

  abbrev empty_stat : RouteStat V
  empty_stat = record {
    attempts = 0;
    fails = 0;
    avg_slip_real_bps = whole 0;
    avg_slip_exp_bps = whole 0;
    penalty = whole 0;
  }

  -- The row after one more attempt.
  unfoldable pub upsert :
      RouteQuarantineConfig V → Bool → V → V → Option (RouteStat V) → RouteStat V
  upsert config success slip_real slip_exp found =
      let row = found or_else empty_stat in
      let attempts = row.attempts + 1 in
      let fails = row.fails + (if success then 0 else 1) in
      let average = λ (before x : V).
        over (plus (times before (whole row.attempts)) (finite_or_0 x)) (whole attempts) in
      let avg_real = average row.avg_slip_real_bps slip_real in
      let avg_exp = average row.avg_slip_exp_bps slip_exp in
      let slip_excess = max (whole 0) (minus avg_real avg_exp) in
      record {
        attempts = attempts;
        fails = fails;
        avg_slip_real_bps = avg_real;
        avg_slip_exp_bps = avg_exp;
        penalty =
            plus (times (rate fails attempts) config.fail_rate_weight)
              (times slip_excess config.slip_excess_weight);
      }

  unfoldable pub record_route_attempt :
      RouteQuarantineConfig V → Attempt V → RouteStats V → RouteStatSnapshot V × RouteStats V
  record_route_attempt config a table =
      let updated =
        upsert config a.success (finite_or_0 a.slip_real_bps) (finite_or_0 a.slip_exp_bps)
          (table a.route a.window_start) in
      (
        snapshot config updated,
        λ route start.
            if is_row a.route a.window_start route start then some updated else table route start,
      )

  unfoldable pub record_all :
      RouteQuarantineConfig V → List (Attempt V) → RouteStats V → RouteStats V
  record_all config [] table = table
  record_all config (a ∷ rest) table =
      let (_, table') = record_route_attempt config a table in record_all config rest table'
