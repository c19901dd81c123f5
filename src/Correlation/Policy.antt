-- ===== src/Correlation/Policy.antt =====
-- services/correlation/detection_policy.py. The texts' `lower` is an argument.
use intelliops.Base.{
  Bool, true, false, ◌||◌, String, ◌==◌, starts_with, before_suffix, some, none, List, [], ◌∷◌, any,
  Floats, ◌≡◌, arith, if◌then◌else◌,
}
use intelliops.Contracts.{TelemetryEvent}

pub data MetricKind : Type 0 where
  ratio latency saturation default : MetricKind

-- `tok in n`
unfoldable pub contains : String → String → Bool
contains tok String.[] = tok == ""
contains tok (String.◌∷◌ c s) = starts_with tok (String.◌∷◌ c s) || contains tok s

-- `n.endswith(t)`
abbrev pub ends_with : String → String → Bool
ends_with t n = elim (before_suffix t n) [ none ↦ false | some _ ↦ true ]

abbrev pub has_any : List String → String → Bool
has_any toks n = any (λ tok. contains tok n) toks

-- `classify`, of a name that is in lower case already
unfoldable pub classify_lower : String → MetricKind
classify_lower n =
    if has_any ("error_rate" ∷ "error_ratio" ∷ "_ratio" ∷ []) n
    then ratio
    else if has_any ("latency" ∷ "duration" ∷ "_ms" ∷ []) n
    then latency
    else if has_any ("saturation" ∷ "utilization" ∷ "disk_usage" ∷ "cpu_usage" ∷ "_percent" ∷ []) n
    then saturation
    else default

unfoldable pub is_percent_scale : String → Bool
is_percent_scale n = ends_with "_percent" n || n == "cpu_usage"

-- `DetectionPolicy`, its thresholds filled in
pub record DetectionPolicy (F : Type 0) : Type 0 where
  pub enabled : Bool
  pub ratio_limit : F
  pub saturation_ratio : F
  pub saturation_percent : F
  pub latency_ceiling_ms : F

module _ (fl : Floats) (lower : String → String) where
  open fl use {F, lt}

  -- The rule for a metric of a kind, with a value.
  unfoldable pub breaches : DetectionPolicy F → MetricKind → String → F → F → F → Bool
  breaches p ratio name value score z = lt p.ratio_limit value
  breaches p saturation name value score z =
      lt (if is_percent_scale name then p.saturation_percent else p.saturation_ratio) value
  breaches p latency name value score z = lt z score || lt p.latency_ceiling_ms value
  breaches p default name value score z = lt z score

  -- `is_anomaly`
  unfoldable pub is_anomaly : DetectionPolicy F → TelemetryEvent F → F → F → Bool
  is_anomaly p event score z_threshold =
      if p.enabled
      then (elim (event.value) [
        | none ↦ false
        | some v ↦
            breaches p (classify_lower (lower event.name)) (lower event.name) v score z_threshold
      ])
      else lt z_threshold score

  -- Of an event with a value: a metric that has both a score and a ceiling breaches when either does; a bounded ratio or a
  -- saturation is judged by its value alone, whatever its score; and with the policy off only the
  -- score counts.
  pub is_anomaly_by_kind :
      (p : DetectionPolicy F) (event : TelemetryEvent F) (v score score' z : F)
      → event.value ≡ some v
      → (p.enabled ≡ false → is_anomaly p event score z ≡ lt z score)
        × (p.enabled ≡ true
            → classify_lower (lower event.name) ≡ ratio
            → is_anomaly p event score z ≡ is_anomaly p event score' z)
        × (p.enabled ≡ true
            → classify_lower (lower event.name) ≡ saturation
            → is_anomaly p event score z ≡ is_anomaly p event score' z)
        × (p.enabled ≡ true
            → classify_lower (lower event.name) ≡ latency
            → is_anomaly p event score z ≡ (lt z score || lt p.latency_ceiling_ms v))
  unfolding is_anomaly breaches
  is_anomaly_by_kind p event v score score' z e =
      (λ h. ground arith, λ h k. ground arith, λ h k. ground arith, λ h k. ground arith)
