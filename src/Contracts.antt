-- ===== src/Contracts.antt =====
-- common/contracts.py: the records that the services exchange. Times are microseconds since the
-- epoch. JSON objects that no modelled code reads are kept as their text.
use intelliops.Base.{◌≡◌, refl, ◌⊎◌, inl, inr, ℕ, ℤ, Bool, true, false, String, Option, List}
use intelliops.Base.Dict.{Dict}

pub data TelemetryKind : Type 0 where
  metric log trace : TelemetryKind

pub data SituationStatus : Type 0 where
  detected diagnosed acting resolved failed : SituationStatus

pub data HitlMode : Type 0 where
  auto hitl disabled : HitlMode

pub data RemediationResult : Type 0 where
  success failure rolled_back escalated : RemediationResult

-- `==` on the enums
abbrev pub is_metric : TelemetryKind → Bool
is_metric TelemetryKind.metric = true
is_metric _ = false

abbrev pub is_auto : HitlMode → Bool
is_auto HitlMode.auto = true
is_auto _ = false

abbrev pub is_hitl : HitlMode → Bool
is_hitl HitlMode.hitl = true
is_hitl _ = false

abbrev pub is_disabled : HitlMode → Bool
is_disabled HitlMode.disabled = true
is_disabled _ = false

pub HitlMode-cases :
    (m : HitlMode) → (m ≡ HitlMode.auto) ⊎ (m ≡ HitlMode.hitl) ⊎ (m ≡ HitlMode.disabled)
HitlMode-cases HitlMode.auto = inl refl
HitlMode-cases HitlMode.hitl = inr (inl refl)
HitlMode-cases HitlMode.disabled = inr (inr refl)

abbrev pub is_success : RemediationResult → Bool
is_success RemediationResult.success = true
is_success _ = false

abbrev pub is_escalated : RemediationResult → Bool
is_escalated RemediationResult.escalated = true
is_escalated _ = false

-- One normalized signal; `F` is the type of floats.
pub record TelemetryEvent (F : Type 0) : Type 0 where
  pub source : String
  pub kind : TelemetryKind
  pub name : String
  pub value : Option F
  pub payload : Option String
  pub labels : Dict String
  pub ts : ℕ
  pub fingerprint : String

-- An entry of a situation's baseline; a key that the object lacks is `none`.
pub record Baseline (F : Type 0) : Type 0 where
  pub mean : Option F
  pub std : Option F

pub record Situation (F : Type 0) : Type 0 where
  pub id : String
  pub status : SituationStatus
  pub member_events : List (TelemetryEvent F)
  pub severity : String
  pub first_seen : ℕ
  pub last_seen : ℕ
  pub signature : String
  pub peak_score : Option F
  -- An entry that is no object is `none`.
  pub baseline : Option (Dict (Option (Baseline F)))
  pub handling : String

pub record RootCauseHypothesis (F : Type 0) : Type 0 where
  pub situation_id : String
  pub description : String
  pub confidence : F
  pub evidence : List String
  pub suggested_runbook_id : Option String
  pub explanation : Option String
  pub explanation_source : Option String
  pub confidence_source : Option String

pub data StepAction : Type 0 where
  restart scale rollback_deploy wait patch_resource_limits rollback_to_revision patch_probe :
      StepAction

pub data Probe : Type 0 where
  liveness readiness : Probe

pub record RemediationStep : Type 0 where
  pub action : StepAction
  pub replicas : Option ℤ
  pub note : Option String
  pub cpu_limit : Option String
  pub mem_limit : Option String
  pub container : Option String
  pub revision : Option ℤ
  pub probe : Option Probe
  pub initial_delay_seconds : Option ℤ
  pub period_seconds : Option ℤ
  pub timeout_seconds : Option ℤ
  pub failure_threshold : Option ℤ

pub record RemediationTarget : Type 0 where
  pub namespace : String
  pub deployment : String

pub record RemediationPlan : Type 0 where
  pub target : RemediationTarget
  pub steps : List RemediationStep
  pub rollback_steps : List RemediationStep

pub record PreflightResult : Type 0 where
  pub passed : Bool
  pub detail : String
  pub mode : String
  pub sandbox_namespace : Option String

pub record Playbook : Type 0 where
  pub id : String
  pub name : String
  pub match_rule : String
  pub steps : List RemediationStep
  pub hitl_mode : HitlMode
  pub reversible : Bool
  pub rollback_steps : List RemediationStep
  pub symptoms : Option String

pub record ApprovalRequest : Type 0 where
  pub id : String
  pub situation_id : String
  pub playbook_id : String
  pub requested_by : String
  pub status : String
  pub decided_by : Option String
  pub preflight : Option PreflightResult

pub record RemediationOutcome : Type 0 where
  pub situation_id : String
  pub playbook_id : String
  pub result : RemediationResult
  pub health_after : String
  pub ts : ℕ
  pub hitl_mode : HitlMode
  pub steps : List String
  pub mode : String
  pub preflight : Option PreflightResult
  pub handling : String

pub record AuditRecord : Type 0 where
  pub actor : String
  pub action : String
  pub resource : String
  pub decision : String
  pub ts : ℕ
  pub correlation_id : String

pub record DiagnosedSituation (F : Type 0) : Type 0 where
  pub situation : Situation F
  pub hypotheses : List (RootCauseHypothesis F)
  pub suggested_runbook_id : Option String

pub record TrainingRecord : Type 0 where
  pub situation_id : String
  pub signature : String
  pub playbook_id : String
  pub result : RemediationResult
  pub worked : Bool
  pub ts : ℕ
  pub mode : Option String

pub data ProposedPlaybookStatus : Type 0 where
  proposed approved rejected : ProposedPlaybookStatus

pub record ProposedPlaybook : Type 0 where
  pub id : String
  pub playbook : Playbook
  pub status : ProposedPlaybookStatus
  pub proposed_by : String
  pub rationale : Option String
  pub source_situation_id : Option String
  pub decided_by : Option String
  pub ts : ℕ

pub data AuthorDecisionDisposition : Type 0 where
  pending accepted rejected : AuthorDecisionDisposition

pub data AuthorDecisionOutcome : Type 0 where
  unknown worked failed : AuthorDecisionOutcome

pub record AuthorDecision : Type 0 where
  pub signature : String
  pub proposal_id : String
  pub playbook_id : String
  pub actions : List StepAction
  pub cited_facts : List String
  pub note : Option String
  pub disposition : AuthorDecisionDisposition
  pub outcome : AuthorDecisionOutcome
  pub decided_by : Option String
  pub ts : ℕ
