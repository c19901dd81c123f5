-- ===== src/Read/Card.antt =====
-- services/read/projection.py: what the console is shown, and how texts and times are spelled there.
use intelliops.Base.{
  ℕ, ◌/◌, Bool, not, ◌||◌, String, ◌==◌, Option, none, some, List, [], ◌∷◌, map, take,
  if◌then◌else◌,
}
use intelliops.Base.Dict.{Dict, lookup, lookup_or, insert}
use intelliops.Contracts.{
  TelemetryEvent, TelemetryKind, SituationStatus, Baseline, RootCauseHypothesis, RemediationResult,
  PreflightResult, HitlMode,
}

-- `_epoch_ms`
abbrev pub epoch_ms : ℕ → ℕ
epoch_ms ts = ts / 1000

abbrev pub status_text : SituationStatus → String
status_text SituationStatus.detected = "detected"
status_text SituationStatus.diagnosed = "diagnosed"
status_text SituationStatus.acting = "acting"
status_text SituationStatus.resolved = "resolved"
status_text SituationStatus.failed = "failed"

abbrev pub result_text : RemediationResult → String
result_text RemediationResult.success = "success"
result_text RemediationResult.failure = "failure"
result_text RemediationResult.rolled_back = "rolled_back"
result_text RemediationResult.escalated = "escalated"

abbrev pub mode_text : HitlMode → String
mode_text HitlMode.auto = "auto"
mode_text HitlMode.hitl = "hitl"
mode_text HitlMode.disabled = "disabled"

abbrev pub kind_text : TelemetryKind → String
kind_text TelemetryKind.metric = "metric"
kind_text TelemetryKind.log = "log"
kind_text TelemetryKind.trace = "trace"

-- `_RESULT_STATUS`
unfoldable pub result_status : RemediationResult → String
result_status RemediationResult.success = "resolved"
result_status RemediationResult.failure = "failed"
result_status RemediationResult.rolled_back = "failed"
result_status RemediationResult.escalated = "needs_attention"

-- `_EVICTABLE`
abbrev pub is_evictable : String → Bool
is_evictable s = s == "resolved" || s == "failed" || s == "needs_attention"

abbrev pub severity_of : String → String
severity_of s = if s == "critical" || s == "high" || s == "low" then s else "medium"

pub record Shown (F : Type 0) : Type 0 where
  pub name : String
  pub value : Option F
  pub labels : Dict String
  pub kind : String
  pub ts : ℕ

pub record Verdict : Type 0 where
  pub result : String
  pub health_after : String
  pub mode : String
  pub steps : List String
  pub preflight : Option PreflightResult
  pub handling : String

pub record Card (F : Type 0) : Type 0 where
  pub id : String
  pub signature : String
  pub service : String
  pub title : String
  pub status : String
  pub severity : String
  pub member_count : ℕ
  pub member_events : List (Shown F)
  pub peak_score : Option F
  pub baseline : Option (Dict (Option (Baseline F)))
  pub first_seen : ℕ
  pub last_seen : ℕ
  pub hypotheses : List (RootCauseHypothesis F)
  pub suggested_runbook_id : Option String
  pub hitl_mode : String
  pub reversible : Bool
  pub reliability : F
  pub suppressed : Bool
  pub handling : String
  pub last_activity : ℕ
  pub stages : Dict ℕ
  pub outcome : Option Verdict

pub record Entry : Type 0 where
  pub situation_id : String
  pub playbook_id : String
  pub result : String
  pub reason : String
  pub ts : ℕ
  pub service : String
  pub hitl_mode : String
  pub mode : String
  pub handling : String
  pub mttr_ms : Option ℕ

pub record ReadModel (F : Type 0) : Type 0 where
  pub sits : Dict (Card F)
  pub outcomes : List Entry
  pub max_outcomes : ℕ
  pub suppressed_count : ℕ

-- The first label of an event that has a text.
abbrev service_label : Dict String → String
service_label labels =
    if not (lookup_or "service" labels "" == "")
    then lookup_or "service" labels ""
    else if not (lookup_or "job" labels "" == "")
    then lookup_or "job" labels ""
    else lookup_or "instance" labels ""

module _ {F : Type 0} where
  -- `_service_of`
  unfoldable pub service_of : List (TelemetryEvent F) → String
  service_of [] = "unknown"
  service_of (e ∷ es) =
      let later = service_of es in
      if service_label e.labels == "" then later else service_label e.labels

  -- `_project_events`
  unfoldable pub project_events : List (TelemetryEvent F) → List (Shown F)
  project_events evs =
      map
        (λ (ev : TelemetryEvent F). record {
          name = ev.name;
          value = ev.value;
          labels = ev.labels;
          kind = kind_text ev.kind;
          ts = epoch_ms ev.ts;
        })
        (take 20 evs)

-- `stages.setdefault(k, v)`
abbrev pub set_default : String → ℕ → Dict ℕ → Dict ℕ
set_default k v d = elim (lookup k d) [ none ↦ insert k v d | some _ ↦ d ]
