-- ===== src/Tests/Detectors.antt =====
-- The two detectors at concrete inputs.
use intelliops.Base.{◌≡◌, ◌∷◌, ◌<◌, ℕ, true, List, [], arith, count, ==_refl, pos}
use intelliops.Tests.{floats}
use intelliops.Tests.Data.{event_at}
use intelliops.Correlation.Robust.{Settings, Windows, learned, snapshot, load, last_n}
use intelliops.Correlation.Robust.Windows.{IsValid, load-snapshot}
use intelliops.Correlation.River.{Statistics, detect}
use intelliops.Correlation.River.Warmup.{fresh, detect-Quiet, is_sample}

abbrev settings : Settings
settings = record { warmup_samples = 1; seasonal_buckets = 24; window_size = 2; by_series = true }

-- Of a list, the first value.
abbrev middle : List ℕ → ℕ
middle [] = 0
middle (x ∷ xs) = x

abbrev hour : ℕ → ℕ
hour ts = ts

abbrev windows : Windows ℕ
windows =
    intelliops.Correlation.Robust.learned floats middle settings hour
      (event_at 10 ∷ event_at 10 ∷ event_at 11 ∷ event_at 10 ∷ []) []

load-snapshot_example :
    IsValid settings windows × (load settings (snapshot settings windows) [] ≡ windows)
load-snapshot_example =
    load-snapshot floats middle settings hour
      (event_at 10 ∷ event_at 10 ∷ event_at 11 ∷ event_at 10 ∷ [])

abbrev latest : Statistics ℕ
latest = record {
  S = ℕ;
  new = 0;
  update = λ x s. x;
  mean = λ s. s;
  variance = λ s. s;
  size = λ s. 1;
  from_state = λ n mean variance. mean;
}

few : count (is_sample "latency") (event_at 10 ∷ event_at 20 ∷ []) < 3
few = ground (arith, ==_refl "latency")

detect-Quiet_example :
    (detect floats latest
      (λ x. x)
      3
      (event_at 30)
      (intelliops.Correlation.River.learned floats latest
        (λ x. x)
        3
        (event_at 10 ∷ event_at 20 ∷ [])
        (fresh floats latest (λ x. x) 3))).0
    ≡ floats.lit (pos 0) 0
detect-Quiet_example =
    detect-Quiet floats latest (λ x. x) 3 (event_at 10 ∷ event_at 20 ∷ []) (event_at 30) few
