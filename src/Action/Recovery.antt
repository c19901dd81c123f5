-- ===== src/Action/Recovery.antt =====
-- services/action/verify.py: after a fix, is every metric that fired back to normal? The query of a
-- metric's current value is a parameter, which may raise.
use intelliops.Base.{
  pos, Bool, true, false, not, ◌&&◌, ◌||◌, String, ◌<>◌, ◌==◌, Option, none, some, List, [], ◌∷◌,
  all, All, Floats, ◌≡◌, ◌↔◌, refl, arith, if◌then◌else◌, Bool-cases, Option-cases, inl, inr,
}
use intelliops.Base.Dict.{lookup}
use intelliops.Contracts.{TelemetryEvent, TelemetryKind, is_metric, Situation, Baseline}
use intelliops.Correlation.Policy.{MetricKind, default, DetectionPolicy, classify_lower, is_anomaly}
use intelliops.Action.Effects.{Result, ok, raised, Result-cases}
use intelliops.Action.Remediate.{service_or}

abbrev pub is_default : MetricKind → Bool
is_default default = true
is_default _ = false

abbrev pub has_value : {F : Type 0} → TelemetryEvent F → Bool
has_value e = elim (e.value) [ none ↦ false | some _ ↦ true ]

-- The names of the metrics that fired.
unfoldable pub firing : {F : Type 0} → List (TelemetryEvent F) → List String
firing [] = []
firing (e ∷ es) = if is_metric e.kind && has_value e then e.name ∷ firing es else firing es

module _ (fl : Floats) (lower : String → String) where
  open fl use {F, lit, sub, mul, div, absolute, lt, le}

  abbrev zero_score : F
  zero_score = lit (pos 0) 0

  abbrev one : F
  one = lit (pos 1) 0

  -- `_FLAT_MIN_RELATIVE` and `_FLAT_STEP_SCORE`
  abbrev flat_min_relative : F
  flat_min_relative = lit (pos 5) 1

  abbrev flat_step_score : F
  flat_step_score = lit (pos 60) 1

  abbrev flat_score : F → F → F
  flat_score mean value =
      let scale = if lt (absolute mean) one then one else absolute mean in
      if le (absolute (sub value mean)) (mul flat_min_relative scale)
      then zero_score
      else flat_step_score

  -- The score against an entry of the baseline; `none` where there is no usable one.
  unfoldable pub score_against : Option F → Option F → F → Option F
  score_against none std value = none
  score_against (some mean) none value = some (flat_score mean value)
  score_against (some mean) (some std) value =
      if le std zero_score then some (flat_score mean value) else some (div (sub value mean) std)

  abbrev entry_of : Situation F → String → Option (Option (Baseline F))
  entry_of situation name = elim (situation.baseline) [ none ↦ none | some d ↦ lookup name d ]

  -- `_baseline_score`
  unfoldable pub baseline_score : Situation F → String → F → Option F
  baseline_score situation name value = elim (entry_of situation name) [
    | none ↦ none
    | some entry ↦ elim entry [ none ↦ none | some b ↦ score_against b.mean b.std value ]
  ]

  module _ (situation : Situation F) (query : String → Option String → Result (Option F))
      (takes_service : Bool) (policy : DetectionPolicy F) (z_threshold : F) where
    -- `_query`
    unfoldable pub ask : String → Result (Option F)
    ask name =
        let service = service_or "" situation.member_events in
        query name (if not (service == "") && takes_service then some service else none)

    abbrev pub kind_of : String → MetricKind
    kind_of name = classify_lower (lower name)

    unfoldable pub score_only : String → Bool
    score_only name = not policy.enabled || is_default (kind_of name)

    abbrev pub probe_event : String → F → TelemetryEvent F
    probe_event name current = record {
      source = "verify";
      kind = TelemetryKind.metric;
      name = name;
      value = some current;
      payload = none;
      labels = [];
      ts = situation.last_seen;
      fingerprint = "verify-" <> name;
    }

    -- The verdict on a value that was read.
    unfoldable pub is_normal : String → F → Bool
    is_normal name current =
        let found = baseline_score situation name current in
        if score_only name
        then (elim found [ none ↦ false | some score ↦ le (absolute score) z_threshold ])
        else not (
            is_anomaly fl lower policy (probe_event name current)
              (elim found [ none ↦ zero_score | some score ↦ score ]) z_threshold)

    -- `_recovered`
    unfoldable pub recovered : String → Bool
    recovered name = elim (ask name) [
      | raised ↦ false
      | ok answer ↦ elim answer [ none ↦ false | some current ↦ is_normal name current ]
    ]

    -- `metric_healthy`
    unfoldable pub metric_healthy : Bool
    metric_healthy = all recovered (firing situation.member_events)

    -- When a metric with a current value counts as recovered.
    abbrev pub Normal : String → F → Type 0
    Normal name v =
        if score_only name
        then ((score : F) × (baseline_score situation name v ≡ some score)
            × (le (absolute score) z_threshold ≡ true))
        else (is_anomaly fl lower policy (probe_event name v)
              (elim (baseline_score situation name v) [ none ↦ zero_score | some score ↦ score ])
              z_threshold
            ≡ false)

    abbrev pub Recovered : String → Type 0
    Recovered name = (v : F) × (ask name ≡ ok (some v)) × Normal name v

    recovered-Recovered : (name : String) → recovered name ≡ true → Recovered name
    unfolding recovered is_normal
    recovered-Recovered name h = elim (Result-cases (ask name)) [
      | inl e ↦ absurd (ground arith)
      | inr (answer, e) ↦ elim (Option-cases answer) [
        | inl e' ↦ absurd (ground arith)
        | inr (v, e') ↦ elim (Bool-cases (score_only name)) [
          | inl only ↦ elim (Option-cases (baseline_score situation name v)) [
            | inl lost ↦ absurd (ground arith)
            | inr (score, found) ↦ (v, ground arith, rw only (score, found, ground arith))
          ]
          | inr both ↦ (v, ground arith, rw both (ground arith))
        ]
      ]
    ]

    Recovered-recovered : (name : String) → Recovered name → recovered name ≡ true
    unfolding recovered is_normal
    Recovered-recovered name (v, e, n) = elim (Bool-cases (score_only name)) [
      | inl only ↦
          let (score, found, near) : (score : F) × (baseline_score situation name v ≡ some score)
              × (le (absolute score) z_threshold ≡ true) =
            rw only at n in
          ground arith
      | inr both ↦
          let calm : is_anomaly fl lower policy (probe_event name v)
                (elim (baseline_score situation name v) [ none ↦ zero_score | some score ↦ score ])
                z_threshold
              ≡ false =
            rw both at n in
          ground arith
    ]

    all_iff : (names : List String) → (all recovered names ≡ true) ↔ All Recovered names
    all_iff [] = (λ h. tt, λ h. refl)
    all_iff (x ∷ xs) =
        let (there, back) = all_iff xs in
        (
          λ h. (recovered-Recovered x (ground arith), there (ground arith)),
          λ h. let a = Recovered-recovered x h.0 in let b = back h.1 in ground arith,
        )

    -- The check passes exactly when for every metric that fired a current value could be read and
    -- that value is normal: for a metric that is judged by its score alone there is a usable
    -- baseline and the score lies within the threshold in both directions, for any other the
    -- detection policy does not call the value anomalous. So a failed query, a missing value or a
    -- missing baseline of a score-only metric fails the check.
    pub metric_healthy_iff :
        (metric_healthy ≡ true) ↔ All Recovered (firing situation.member_events)
    unfolding metric_healthy
    metric_healthy_iff = all_iff (firing situation.member_events)
