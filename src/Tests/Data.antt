-- ===== src/Tests/Data.antt =====
-- One event, one situation and the playbooks for it.
use intelliops.Base.{ℕ, Bool, true, none, some, [], ◌∷◌}
use intelliops.Contracts.{
  TelemetryEvent, TelemetryKind, Situation, SituationStatus, RemediationStep, StepAction, Playbook,
  HitlMode, DiagnosedSituation, TrainingRecord, RemediationResult, RemediationOutcome,
}

abbrev pub event_at : ℕ → TelemetryEvent ℕ
event_at ts = record {
  source = "prometheus";
  kind = TelemetryKind.metric;
  name = "latency";
  value = some 900000;
  payload = none;
  labels = ("service", "checkout") ∷ [];
  ts = ts;
  fingerprint = "f1";
}

abbrev pub sit : Situation ℕ
sit = record {
  id = "sit-abc";
  status = SituationStatus.detected;
  member_events = event_at 10 ∷ event_at 20 ∷ [];
  severity = "high";
  first_seen = 10;
  last_seen = 20;
  signature = "abc";
  peak_score = some 9000;
  baseline = none;
  handling = "quiet";
}

abbrev pub step : StepAction → RemediationStep
step action = record {
  action = action;
  replicas = none;
  note = none;
  cpu_limit = none;
  mem_limit = some "512Mi";
  container = none;
  revision = none;
  probe = none;
  initial_delay_seconds = none;
  period_seconds = none;
  timeout_seconds = none;
  failure_threshold = none;
}

abbrev pub playbook : HitlMode → Playbook
playbook mode = record {
  id = "pb-1";
  name = "raise the limits";
  match_rule = "latency";
  steps = step StepAction.patch_resource_limits ∷ step StepAction.restart ∷ [];
  hitl_mode = mode;
  reversible = true;
  rollback_steps = step StepAction.rollback_deploy ∷ [];
  symptoms = none;
}

abbrev pub diagnosed : DiagnosedSituation ℕ
diagnosed = record { situation = sit; hypotheses = []; suggested_runbook_id = some "pb-1" }

abbrev pub run_of : RemediationResult → Bool → TrainingRecord
run_of result worked = record {
  situation_id = "sit-abc";
  signature = "abc";
  playbook_id = "pb-1";
  result = result;
  worked = worked;
  ts = 5;
  mode = some "k8s";
}

abbrev pub outcome_of : RemediationResult → RemediationOutcome
outcome_of result = record {
  situation_id = "sit-abc";
  playbook_id = "pb-1";
  result = result;
  health_after = "healthy";
  ts = 30;
  hitl_mode = HitlMode.auto;
  steps = [];
  mode = "k8s";
  preflight = none;
  handling = "normal";
}
