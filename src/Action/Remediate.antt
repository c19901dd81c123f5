-- ===== src/Action/Remediate.antt =====
-- services/action/remediate.py and targets.py: a playbook is run only behind the safety gates.
pub mod Gates
pub mod Reported
pub mod Returns
pub mod Trail
use intelliops.Base.{
  ℕ, pos, show_ℤ, leb_ℤ, Bool, true, false, not, ◌&&◌, ◌||◌, String, ◌<>◌, ◌==◌, Option, none, some,
  List, [], ◌∷◌, map, Floats, if◌then◌else◌,
}
use intelliops.Base.Dict.{Dict, lookup_or}
use intelliops.Contracts.{
  TelemetryEvent, Situation, RemediationStep, RemediationTarget, RemediationPlan,
  RemediationOutcome, PreflightResult, ApprovalRequest, AuditRecord, Playbook, is_disabled, is_hitl,
  is_auto, StepAction, restart, scale, rollback_deploy, wait, patch_resource_limits,
  rollback_to_revision, patch_probe, RemediationResult,
}
use intelliops.Action.Denylist.{denylist_reason}
use intelliops.Action.Effects
use intelliops.Action.Effects.{Env, M, ◌>>=◌, ◌>>◌, pure, call, best_effort, clock, Effect}

abbrev pub actor : String
actor = "action-service"

-- `labels.get(a) or labels.get(b)`: an empty text is false.
abbrev pub label_or : String → String → Dict String → String
label_or a b labels =
    if lookup_or a labels "" == "" then lookup_or b labels "" else lookup_or a labels ""

module _ {F : Type 0} where
  unfoldable pub service_or : String → List (TelemetryEvent F) → String
  service_or default [] = default
  service_or default (ev ∷ evs) =
      let later = service_or default evs in
      let svc = label_or "service" "job" ev.labels in if svc == "" then later else svc

  unfoldable pub resolve_target : Situation F → String → RemediationTarget
  resolve_target situation namespace = record {
    namespace = namespace;
    deployment = service_or "unknown" situation.member_events;
  }

action_name : StepAction → String
action_name restart = "restart"
action_name scale = "scale"
action_name rollback_deploy = "rollback_deploy"
action_name wait = "wait"
action_name patch_resource_limits = "patch_resource_limits"
action_name rollback_to_revision = "rollback_to_revision"
action_name patch_probe = "patch_probe"

noted : StepAction → Option String → String
unfolding action_name
noted action none = action_name action
noted action (some note) =
    if note == "" then action_name action else action_name action <> ": " <> note

format_step : RemediationTarget → StepAction → RemediationStep → String
unfolding noted
format_step target scale step = elim (step.replicas) [
  | none ↦ noted scale step.note
  | some r ↦
      let sign = if leb_ℤ (pos 0) r then "+" else "" in
      "scale " <> target.deployment <> " " <> sign <> show_ℤ r <> " replicas"
]
format_step target action step = noted action step.note

unfoldable pub format_steps : RemediationPlan → List String
unfolding format_step
format_steps plan = map (λ step. format_step plan.target step.action step) plan.steps

module _ (fl : Floats) (env : Env fl.F) where
  open fl use {F}

  module _ (situation : Situation F) (playbook : Playbook) where
    abbrev pub resource : String
    resource = "playbook:" <> playbook.id

    -- `_audit`
    abbrev audit_row : String → ℕ → AuditRecord
    audit_row decision ts = record {
      actor = actor;
      action = "execute";
      resource = resource;
      decision = decision;
      ts = ts;
      correlation_id = situation.id;
    }

    unfoldable pub audit : String → M F Unit
    audit decision = do
      ts ← clock env
      call (Effect.write_audit (audit_row decision ts))
          (λ log. env.write_audit log (audit_row decision ts))

    -- `_outcome`
    unfoldable pub outcome :
        RemediationResult
        → String
        → List String
        → String
        → Option PreflightResult
        → M F RemediationOutcome
    outcome result health_after steps mode preflight = do
      ts ← clock env
      pure (record {
        situation_id = situation.id;
        playbook_id = playbook.id;
        result = result;
        health_after = health_after;
        ts = ts;
        hitl_mode = playbook.hitl_mode;
        steps = steps;
        mode = mode;
        preflight = preflight;
        handling = "normal";
      })

    -- A gate that is not passed: nothing was planned.
    unfoldable pub refuse : String → String → M F RemediationOutcome
    refuse decision reason = do
      audit decision
      outcome RemediationResult.failure reason [] "dry_run" none

    -- `_expire_best_effort`
    unfoldable pub expire_best_effort : String → M F Unit
    expire_best_effort id =
        if env.has_expire
        then best_effort (call (Effect.expire id actor) (λ log. env.expire log id actor))
        else pure tt

    abbrev pub plan : RemediationPlan
    plan = record {
      target = resolve_target situation env.k8s_namespace;
      steps = playbook.steps;
      rollback_steps = playbook.rollback_steps;
    }

    module _ (preflight : PreflightResult) where
      -- An outcome of a plan that was made and rehearsed.
      unfoldable pub report : String → RemediationResult → String → M F RemediationOutcome
      report decision result health_after = do
        audit decision
        outcome result health_after (format_steps plan) env.remediator_mode (some preflight)

      abbrev pub wanted : ApprovalRequest
      wanted = record {
        id = "appr-" <> situation.id;
        situation_id = situation.id;
        playbook_id = playbook.id;
        requested_by = actor;
        status = "pending";
        decided_by = none;
        preflight = some preflight;
      }

      -- Not approved: the reason, after an undecided request was marked as expired.
      unfoldable pub give_up : String → String → M F (Option String)
      give_up id status = do
        (if status == "pending" then expire_best_effort id else pure tt)
        pure (some (if status == "rejected" then "aborted:rejected" else "aborted:timeout"))

      -- The approval request, and the reason why nothing may run if it is not approved.
      unfoldable pub ask_human : F → M F (Option String)
      ask_human timeout = do
        request ← call (Effect.request_approval wanted) (λ log. env.request_approval log wanted)
        decided ←
            call (Effect.await_decision request.id timeout)
              (λ log. env.await_decision log request.id timeout)
        (if decided.status == "approved" then pure none else give_up request.id decided.status)

      -- What follows the rollback, by its answer.
      unfoldable pub rollback_done : Bool → M F RemediationOutcome
      rollback_done true =
          report "rolled-back" RemediationResult.rolled_back "unhealthy:rolled-back"
      rollback_done false =
          report "rollback-failed" RemediationResult.failure "unhealthy:rollback-failed"

      -- The change was made and the health did not come back.
      unfoldable pub roll_back : List RemediationStep → M F RemediationOutcome
      roll_back [] =
          report "unhealthy-no-rollback" RemediationResult.failure "unhealthy:no-rollback"
      roll_back (_ ∷ _) =
          call (Effect.rollback plan) (λ log. env.rollback log plan) >>= rollback_done

      -- What follows the health check, by its answer.
      unfoldable pub health_checked : Bool → M F RemediationOutcome
      health_checked true = report "allow" RemediationResult.success "healthy"
      health_checked false = roll_back playbook.rollback_steps

      unfoldable pub verify : M F RemediationOutcome
      verify =
          call (Effect.check_health situation plan.target)
            (λ log. env.check_health log situation plan.target)
          >>= health_checked

      -- What follows the execution, by its answer.
      unfoldable pub executed : Bool → M F RemediationOutcome
      executed true = verify
      executed false = report "execute-failed" RemediationResult.failure "execute-failed"

      unfoldable pub carry_out : M F RemediationOutcome
      carry_out = call (Effect.execute plan) (λ log. env.execute log plan) >>= executed

      unfoldable pub abort_or_carry_out : Option String → M F RemediationOutcome
      abort_or_carry_out none = carry_out
      abort_or_carry_out (some reason) = do
        audit "abort"
        outcome RemediationResult.failure reason [] "dry_run" (some preflight)

      -- Gate 3.
      unfoldable pub approve_then_carry_out : F → Bool → M F RemediationOutcome
      approve_then_carry_out timeout skip_approval =
          if is_hitl playbook.hitl_mode && skip_approval
          then audit "quiet-approved" >> carry_out
          else if is_hitl playbook.hitl_mode
          then ask_human timeout >>= abort_or_carry_out
          else carry_out

    -- The rehearsal's verdict is a hard gate where no human is asked.
    unfoldable pub rehearsed : F → Bool → PreflightResult → M F RemediationOutcome
    rehearsed timeout skip_approval preflight =
        if not preflight.passed && (is_auto playbook.hitl_mode || skip_approval)
        then report preflight "preflight-failed" RemediationResult.failure "preflight-failed"
        else approve_then_carry_out preflight timeout skip_approval

    unfoldable pub rehearse_then : F → Bool → M F RemediationOutcome
    rehearse_then timeout skip_approval =
        call (Effect.rehearse situation plan) (λ log. env.rehearse log situation plan)
        >>= rehearsed timeout skip_approval

    -- Gate 2.5.
    unfoldable pub unless_denied : Option String → F → Bool → M F RemediationOutcome
    unless_denied (some reason) timeout skip_approval = refuse "denied-unsafe" reason
    unless_denied none timeout skip_approval = rehearse_then timeout skip_approval

    -- What follows the policy's answer.
    unfoldable pub rbac_checked : F → Bool → Bool → M F RemediationOutcome
    rbac_checked timeout skip_approval false = refuse "deny" "denied:rbac"
    rbac_checked timeout skip_approval true =
        unless_denied (denylist_reason fl playbook) timeout skip_approval

    unfoldable pub execute_remediation : F → Bool → M F RemediationOutcome
    execute_remediation timeout skip_approval =
        if is_disabled playbook.hitl_mode
        then refuse "skipped" "skipped:disabled"
        else if not playbook.reversible
        then refuse "refused" "refused:not-reversible"
        else call (Effect.check_rbac actor "execute" resource)
            (λ log. env.check_rbac log actor "execute" resource)
          >>= rbac_checked timeout skip_approval
