-- ===== src/Correlation/River.antt =====
-- services/correlation/adapters/river_correlator.py: a running mean and variance for each metric,
-- against which a value is scored once the metric has been seen often enough. The two statistics of
-- river, and the square root, are parameters.
pub mod Warmup
use intelliops.Base.{
  ℕ, ◌+◌, ltb, pos, Bool, ◌||◌, String, Option, none, some, List, [], ◌∷◌, map, Floats, feq,
  if◌then◌else◌,
}
use intelliops.Base.Dict.{Dict, lookup_or, insert}
use intelliops.Contracts.{TelemetryEvent, Baseline}

-- `stats.Mean` and `stats.Var`, which are kept side by side.
pub record Statistics (F : Type 0) : Type 1 where
  pub S : Type 0
  pub new : S
  pub update : F → S → S
  pub mean : S → F
  pub variance : S → F
  -- the number of values, `var.mean.n`
  pub size : S → ℕ
  -- `_from_state`
  pub from_state : (n : ℕ) → (mean variance : F) → S

pub record Row (F : Type 0) : Type 0 where
  pub metric_name : String
  pub n : ℕ
  pub mean : F
  pub variance : F
  pub count : ℕ

module _ (fl : Floats) (stats : Statistics fl.F) (sqrt : fl.F → fl.F) (warmup_samples : ℕ) where
  open fl use {F, lit, sub, div, absolute}

  -- `_mean` and `_var`, and `_count`
  pub record State : Type 0 where
    pub stat : Dict stats.S
    pub count : Dict ℕ

  unfoldable pub score : (seen : ℕ) → stats.S → F → F
  score seen s value =
      let sd = sqrt (stats.variance s) in
      if ltb seen warmup_samples || feq fl sd (lit (pos 0) 0)
      then lit (pos 0) 0
      else div (absolute (sub value (stats.mean s))) sd

  -- A value is scored before it is added.
  unfoldable pub detect_value : String → Option F → State → F × State
  detect_value name none m = (lit (pos 0) 0, m)
  detect_value name (some value) m =
      let s = lookup_or name m.stat stats.new in
      let seen = lookup_or name m.count 0 in
      (
        score seen s value,
        record {
          stat = insert name (stats.update value s) m.stat;
          count = insert name (seen + 1) m.count;
        },
      )

  -- `detect`
  unfoldable pub detect : TelemetryEvent F → State → F × State
  detect event m = detect_value event.name event.value m

  -- What is known after these events.
  unfoldable pub learned : List (TelemetryEvent F) → State → State
  learned [] m = m
  learned (event ∷ events) m = learned events (detect event m).1

  unfoldable pub snapshot : State → List (Row F)
  snapshot m =
      map
        (λ e. record {
          metric_name = e.0;
          n = stats.size e.1;
          mean = stats.mean e.1;
          variance = stats.variance e.1;
          count = lookup_or e.0 m.count 0;
        })
        m.stat

  unfoldable pub load : List (Row F) → State → State
  load [] m = m
  load (r ∷ rs) m = load rs (record {
    stat = insert r.metric_name (stats.from_state r.n r.mean r.variance) m.stat;
    count = insert r.metric_name r.count m.count;
  })

  abbrev baseline_of : stats.S → Baseline F
  baseline_of s = record { mean = some (stats.mean s); std = some (sqrt (stats.variance s)) }

  unfoldable pub baseline_snapshot : State → Dict (Baseline F)
  baseline_snapshot m = map (λ e. (e.0, baseline_of e.1)) m.stat
