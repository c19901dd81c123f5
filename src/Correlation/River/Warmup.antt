-- ===== src/Correlation/River/Warmup.antt =====
-- A metric that is new does not set anything off.
use intelliops.Base.{
  ◌≡◌, if◌then◌else◌, ◌∷◌, ◌+◌, ◌==◌, ◌<◌, ℕ, String, refl, Bool, false, Option, none, some, List,
  [], arith, count, ==_iff, Floats, pos,
}
use intelliops.Base.Dict.{lookup, lookup_or, insert, lookup-insert}
use intelliops.Contracts.{TelemetryEvent}
use intelliops.Correlation.River.{Statistics, State, score, detect, detect_value, learned}

abbrev pub has_value : {F : Type 0} → (metric name : String) → Option F → Bool
has_value metric name none = false
has_value metric name (some _) = metric == name

-- An event of the metric that has a value.
abbrev pub is_sample : {F : Type 0} → String → TelemetryEvent F → Bool
is_sample name event = has_value event.name name event.value

lookup_or-insert :
    {V : Type 0} (k j : String) (v w : V) (d : List (String × V))
    → lookup_or j (insert k v d) w ≡ (if k == j then v else lookup_or j d w)
unfolding lookup_or
lookup_or-insert k j v w d = ground (arith, lookup-insert k j v d)

module _ (fl : Floats) (stats : Statistics fl.F) (sqrt : fl.F → fl.F) (warmup_samples : ℕ) where
  open fl use {F, lit}

  detect_value-seen :
      (name metric : String) (value : Option F) (m : State fl stats sqrt warmup_samples)
      → lookup_or name (detect_value fl stats sqrt warmup_samples metric value m).1.count 0
        ≡ (if has_value metric name value then 1 else 0) + lookup_or name m.count 0
  unfolding detect_value
  detect_value-seen name metric none m = omega arith
  detect_value-seen name metric (some value) m = ground (
    arith,
    lookup_or-insert metric name (lookup_or metric m.count 0 + 1) 0 m.count,
    ==_iff metric name,
  )

  learned-seen :
      (name : String) (events : List (TelemetryEvent F)) (m : State fl stats sqrt warmup_samples)
      → lookup_or name (learned fl stats sqrt warmup_samples events m).count 0
        ≡ count (is_sample name) events + lookup_or name m.count 0
  unfolding learned detect
  learned-seen name [] m = omega arith
  learned-seen name (event ∷ events) m =
      let m' = (detect fl stats sqrt warmup_samples event m).1 in
      omega (arith, learned-seen name events m', detect_value-seen name event.name event.value m)

  quiet :
      (name : String) (value : Option F) (m : State fl stats sqrt warmup_samples)
      → lookup_or name m.count 0 < warmup_samples
      → (detect_value fl stats sqrt warmup_samples name value m).0 ≡ lit (pos 0) 0
  unfolding detect_value score
  quiet name none m few = refl
  quiet name (some value) m few = ground arith

  abbrev pub fresh : State fl stats sqrt warmup_samples
  fresh = record { stat = []; count = [] }

  -- The detector keeps still while it warms up: whatever it has seen, an event of a metric with fewer
  -- values than the warm-up asks for is scored 0.0.
  pub detect-Quiet :
      (events : List (TelemetryEvent F)) (event : TelemetryEvent F)
      → count (is_sample event.name) events < warmup_samples
      → (detect fl stats sqrt warmup_samples event
          (learned fl stats sqrt warmup_samples events fresh)).0
        ≡ lit (pos 0) 0
  unfolding detect lookup_or lookup
  detect-Quiet events event few =
      quiet event.name event.value (learned fl stats sqrt warmup_samples events fresh)
        (omega (arith, few, learned-seen event.name events fresh))
