-- ===== src/Action/Remediate/Trail.antt =====
-- The audit trail: what the outcome and the last audit row say is what the calls did.
use intelliops.Base.{
  Bool, true, false, not, ◌&&◌, ◌||◌, String, ==_iff, Option, none, some, Floats, if◌then◌else◌,
  arith,
}
use intelliops.Contracts.{
  Situation, PreflightResult, Playbook, is_disabled, is_hitl, is_auto, failure,
}
use intelliops.Action.Denylist.{denylist_reason}
use intelliops.Action.Effects.{Env, World, ◌>>=◌, ◌>>◌, call, Effect, bind_rule}
use intelliops.Action.Remediate.{
  actor, resource, plan, audit, refuse, report, ask_human, carry_out, abort_or_carry_out,
  approve_then_carry_out, rehearse_then, unless_denied, execute_remediation, rbac_checked,
  rehearsed,
}
use intelliops.Action.Remediate.Reported.{
  Truthful, refuse-Truthful, branch_rule, report_failure, carry_out-Truthful,
  abort_or_carry_out-Truthful,
}

module _ (fl : Floats) (env : Env fl.F) (situation : Situation fl.F) (playbook : Playbook) where
  module _ (pf : PreflightResult) where
    approve_then-Truthful :
        (t : fl.F) (skip : Bool) (w : World fl.F)
        → Truthful fl env situation playbook
            (approve_then_carry_out fl env situation playbook pf t skip w)
    unfolding approve_then_carry_out
    approve_then-Truthful t skip w =
        let run = carry_out fl env situation playbook pf in
        let waive = audit fl env situation playbook "quiet-approved" in
        let ask = ask_human fl env situation playbook pf t in
        let stop_or = abort_or_carry_out fl env situation playbook pf in
        branch_rule fl env situation playbook (is_hitl playbook.hitl_mode && skip) (waive >> run)
          (if is_hitl playbook.hitl_mode then ask >>= stop_or else run) w
          (bind_rule (Truthful fl env situation playbook) waive (λ _. run) w (λ _. tt)
            (λ _ w'. carry_out-Truthful fl env situation playbook pf w'))
          (branch_rule fl env situation playbook (is_hitl playbook.hitl_mode) (ask >>= stop_or) run
            w
            (bind_rule (Truthful fl env situation playbook) ask stop_or w (λ _. tt)
              (abort_or_carry_out-Truthful fl env situation playbook pf))
            (carry_out-Truthful fl env situation playbook pf w))

    rehearsed-Truthful :
        (t : fl.F) (skip : Bool) (w : World fl.F)
        → Truthful fl env situation playbook (rehearsed fl env situation playbook t skip pf w)
    unfolding rehearsed
    rehearsed-Truthful t skip w =
        branch_rule fl env situation playbook
          (not pf.passed && (is_auto playbook.hitl_mode || skip))
          (report fl env situation playbook pf "preflight-failed" failure "preflight-failed")
          (approve_then_carry_out fl env situation playbook pf t skip) w
          (report_failure fl env situation playbook pf "preflight-failed" "preflight-failed" w
            (ground (arith, ==_iff "preflight-failed" "allow"))
            (ground (arith, ==_iff "preflight-failed" "rolled-back")))
          (approve_then-Truthful t skip w)

  unless_denied-Truthful :
      (reason : Option String) (t : fl.F) (skip : Bool) (w : World fl.F)
      → Truthful fl env situation playbook (unless_denied fl env situation playbook reason t skip w)
  unfolding unless_denied rehearse_then
  unless_denied-Truthful none t skip w =
      bind_rule (Truthful fl env situation playbook)
        (call (Effect.rehearse situation (plan fl env situation playbook))
          (λ log. env.rehearse log situation (plan fl env situation playbook)))
        (rehearsed fl env situation playbook t skip) w (λ _. tt)
        (λ pf. rehearsed-Truthful pf t skip)
  unless_denied-Truthful (some reason) t skip w =
      refuse-Truthful fl env situation playbook "denied-unsafe" reason w
        (ground (arith, ==_iff "denied-unsafe" "allow"))
        (ground (arith, ==_iff "denied-unsafe" "rolled-back"))

  rbac_checked-Truthful :
      (t : fl.F) (skip allowed : Bool) (w : World fl.F)
      → Truthful fl env situation playbook (rbac_checked fl env situation playbook t skip allowed w)
  unfolding rbac_checked
  rbac_checked-Truthful t skip true w =
      unless_denied-Truthful (denylist_reason fl playbook) t skip w
  rbac_checked-Truthful t skip false w =
      refuse-Truthful fl env situation playbook "deny" "denied:rbac" w
        (ground (arith, ==_iff "deny" "allow")) (ground (arith, ==_iff "deny" "rolled-back"))

  -- A run that returns an outcome has audited it last, under this situation and playbook. The
  -- outcome is a success only if the plan was executed and the health check that followed
  -- answered true, and a rollback only if the plan was executed, the check answered false, and
  -- the rollback ran and answered true. It is never an escalation, and a failure is audited as
  -- neither of the two.
  pub execute_remediation-Truthful :
      (t : fl.F) (skip : Bool) (w : World fl.F)
      → Truthful fl env situation playbook (execute_remediation fl env situation playbook t skip w)
  unfolding execute_remediation
  execute_remediation-Truthful t skip w =
      let res = resource fl env situation playbook in
      let ask =
        call (Effect.check_rbac actor "execute" res)
          (λ log. env.check_rbac log actor "execute" res) in
      let go = ask >>= rbac_checked fl env situation playbook t skip in
      let refused = refuse fl env situation playbook "refused" "refused:not-reversible" in
      branch_rule fl env situation playbook (is_disabled playbook.hitl_mode)
        (refuse fl env situation playbook "skipped" "skipped:disabled")
        (if not playbook.reversible then refused else go) w
        (refuse-Truthful fl env situation playbook "skipped" "skipped:disabled" w
          (ground (arith, ==_iff "skipped" "allow"))
          (ground (arith, ==_iff "skipped" "rolled-back")))
        (branch_rule fl env situation playbook (not playbook.reversible) refused go w
          (refuse-Truthful fl env situation playbook "refused" "refused:not-reversible" w
            (ground (arith, ==_iff "refused" "allow"))
            (ground (arith, ==_iff "refused" "rolled-back")))
          (bind_rule (Truthful fl env situation playbook) ask
            (rbac_checked fl env situation playbook t skip) w (λ _. tt)
            (rbac_checked-Truthful t skip)))
