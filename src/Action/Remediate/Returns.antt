-- ===== src/Action/Remediate/Returns.antt =====
-- Where nothing that is called raises, a run ends with an outcome.
use intelliops.Base.{
  ◌||◌, inl, inr, Bool, true, false, not, ◌&&◌, String, Option, none, some, List, [], ◌∷◌, ◌≢◌,
  refl, Floats, arith, if◌then◌else◌, ◌+◌,
}
use intelliops.Contracts.{
  Situation, RemediationStep, RemediationPlan, RemediationTarget, RemediationOutcome,
  PreflightResult, ApprovalRequest, AuditRecord, Playbook, is_disabled, is_hitl, is_auto,
  RemediationResult,
}
use intelliops.Action.Denylist.{denylist_reason}
use intelliops.Action.Effects.{
  Env, World, Log, M, Result, ok, raised, Result-cases, ◌>>=◌, ◌>>◌, Effect, call_rule,
}
use intelliops.Action.Remediate.{
  actor, resource, plan, wanted, audit, outcome, refuse, expire_best_effort, report, give_up,
  ask_human, roll_back, verify, carry_out, abort_or_carry_out, approve_then_carry_out,
  rehearse_then, unless_denied, execute_remediation, audit_row, rbac_checked, health_checked,
  rehearsed, rollback_done, executed,
}

-- No call raises. (An expiry may: it is best effort.)
pub record IsUp {F : Type 0} (env : Env F) : Type 0 where
  pub checks : (log : Log F) (a b c : String) → env.check_rbac log a b c ≢ raised
  pub writes : (log : Log F) (row : AuditRecord) → env.write_audit log row ≢ raised
  pub requests : (log : Log F) (r : ApprovalRequest) → env.request_approval log r ≢ raised
  pub decides : (log : Log F) (id : String) (t : F) → env.await_decision log id t ≢ raised
  pub rehearses :
      (log : Log F) (s : Situation F) (p : RemediationPlan) → env.rehearse log s p ≢ raised
  pub executes : (log : Log F) (p : RemediationPlan) → env.execute log p ≢ raised
  pub undoes : (log : Log F) (p : RemediationPlan) → env.rollback log p ≢ raised
  pub probes :
      (log : Log F) (s : Situation F) (t : RemediationTarget) → env.check_health log s t ≢ raised

abbrev pub Returns : {F A : Type 0} → Result A × World F → Type 0
Returns x = x.0 ≢ raised

pub ok_returns : {A : Type 0} (a : A) → ok a ≢ raised
ok_returns a h = ground arith

bind-Returns :
    {F A B : Type 0} (m : M F A) (f : A → M F B) (w : World F)
    → Returns (m w)
    → ((a : A) (w' : World F) → Returns (f a w'))
    → Returns ((m >>= f) w)
bind-Returns {F} {A} {B} m f w h k = go (m w) h
  where
    go :
        (x : Result A × World F)
        → x.0 ≢ raised
        → Returns (
            let out : Result B × World F = elim (x.0) [ ok a ↦ f a x.1 | raised ↦ (raised, x.1) ] in
            out)
    go (ok a, w') h = k a w'
    go (raised, w') h = absurd (h refl)

module _ (fl : Floats) (env : Env fl.F) (up : IsUp env) (situation : Situation fl.F)
    (playbook : Playbook) where
  close-Returns :
      (d : String) (result : RemediationResult) (r : String) (steps : List String) (mode : String)
      (pf : Option PreflightResult) (w : World fl.F)
      → Returns (
          (audit fl env situation playbook d
              >> outcome fl env situation playbook result r steps mode pf)
            w)
  unfolding audit outcome
  close-Returns d result r steps mode pf w =
      let row = audit_row fl env situation playbook d (env.now w.readings) in
      call_rule Returns (Effect.write_audit row) (λ log. env.write_audit log row)
        (λ _. outcome fl env situation playbook result r steps mode pf)
        (record w { readings = w.readings + 1 }) (λ e. absurd (up.writes w.log row e))
        (λ _ _. ok_returns _)

  refuse-Returns :
      (d r : String) (w : World fl.F) → Returns (refuse fl env situation playbook d r w)
  unfolding refuse
  refuse-Returns d r w = close-Returns d RemediationResult.failure r [] "dry_run" none w

  audit-Returns : (d : String) (w : World fl.F) → Returns (audit fl env situation playbook d w)
  unfolding audit
  audit-Returns d w = up.writes w.log (audit_row fl env situation playbook d (env.now w.readings))

  module _ (pf : PreflightResult) where
    report-Returns :
        (d : String) (result : RemediationResult) (r : String) (w : World fl.F)
        → Returns (report fl env situation playbook pf d result r w)
    unfolding report
    report-Returns d result r w = close-Returns d result r _ _ (some pf) w

    ask_human-Returns :
        (t : fl.F) (w : World fl.F) → Returns (ask_human fl env situation playbook pf t w)
    unfolding ask_human give_up expire_best_effort
    ask_human-Returns t w h =
        let asked = wanted fl env situation playbook pf in
        let log = Effect.request_approval asked ∷ w.log in
        elim (Result-cases (env.request_approval w.log asked)) [
          | inl e ↦ up.requests w.log asked e
          | inr (q, e) ↦ elim (Result-cases (env.await_decision log q.id t)) [
            | inl e' ↦ up.decides log q.id t e'
            | inr (d, e') ↦ ground arith
          ]
        ]

    rollback_done-Returns :
        (undone : Bool) (w : World fl.F)
        → Returns (rollback_done fl env situation playbook pf undone w)
    unfolding rollback_done
    rollback_done-Returns true w = report-Returns _ _ _ w
    rollback_done-Returns false w = report-Returns _ _ _ w

    roll_back-Returns :
        (steps : List RemediationStep) (w : World fl.F)
        → Returns (roll_back fl env situation playbook pf steps w)
    unfolding roll_back
    roll_back-Returns [] w = report-Returns _ _ _ w
    roll_back-Returns (s ∷ steps) w =
        let p = plan fl env situation playbook in
        call_rule Returns (Effect.rollback p) (λ log. env.rollback log p)
          (rollback_done fl env situation playbook pf) w (λ e. absurd (up.undoes w.log p e))
          (λ undone _. rollback_done-Returns undone _)

    health_checked-Returns :
        (healthy : Bool) (w : World fl.F)
        → Returns (health_checked fl env situation playbook pf healthy w)
    unfolding health_checked
    health_checked-Returns true w = report-Returns _ _ _ w
    health_checked-Returns false w = roll_back-Returns playbook.rollback_steps w

    executed-Returns :
        (done : Bool) (w : World fl.F) → Returns (executed fl env situation playbook pf done w)
    unfolding executed verify
    executed-Returns true w =
        let target = (plan fl env situation playbook).target in
        call_rule Returns (Effect.check_health situation target)
          (λ log. env.check_health log situation target)
          (health_checked fl env situation playbook pf) w
          (λ e. absurd (up.probes w.log situation target e))
          (λ healthy _. health_checked-Returns healthy _)
    executed-Returns false w = report-Returns _ _ _ w

    carry_out-Returns : (w : World fl.F) → Returns (carry_out fl env situation playbook pf w)
    unfolding carry_out
    carry_out-Returns w =
        let p = plan fl env situation playbook in
        call_rule Returns (Effect.execute p) (λ log. env.execute log p)
          (executed fl env situation playbook pf) w (λ e. absurd (up.executes w.log p e))
          (λ done _. executed-Returns done _)

    abort_or_carry_out-Returns :
        (stop : Option String) (w : World fl.F)
        → Returns (abort_or_carry_out fl env situation playbook pf stop w)
    unfolding abort_or_carry_out
    abort_or_carry_out-Returns none w = carry_out-Returns w
    abort_or_carry_out-Returns (some reason) w =
        close-Returns "abort" RemediationResult.failure reason [] "dry_run" (some pf) w

  -- A branch of code: it returns if both branches do.
  branch-Returns :
      (b : Bool) (m k : M fl.F RemediationOutcome) (w : World fl.F)
      → Returns (m w)
      → Returns (k w)
      → Returns ((if b then m else k) w)
  branch-Returns true m k w hm hk = hm
  branch-Returns false m k w hm hk = hk

  approve_then-Returns :
      (pf : PreflightResult) (t : fl.F) (skip : Bool) (w : World fl.F)
      → Returns (approve_then_carry_out fl env situation playbook pf t skip w)
  unfolding approve_then_carry_out
  approve_then-Returns pf t skip w =
      branch-Returns (is_hitl playbook.hitl_mode && skip) _ _ w
        (bind-Returns (audit fl env situation playbook "quiet-approved")
          (λ _. carry_out fl env situation playbook pf) w (audit-Returns "quiet-approved" w)
          (λ _ w'. carry_out-Returns pf w'))
        (branch-Returns (is_hitl playbook.hitl_mode) _ _ w
          (bind-Returns (ask_human fl env situation playbook pf t)
            (abort_or_carry_out fl env situation playbook pf) w (ask_human-Returns pf t w)
            (abort_or_carry_out-Returns pf))
          (carry_out-Returns pf w))

  rehearsed-Returns :
      (t : fl.F) (skip : Bool) (pf : PreflightResult) (w : World fl.F)
      → Returns (rehearsed fl env situation playbook t skip pf w)
  unfolding rehearsed
  rehearsed-Returns t skip pf w =
      branch-Returns (not pf.passed && (is_auto playbook.hitl_mode || skip)) _ _ w
        (report-Returns pf _ _ _ w) (approve_then-Returns pf t skip w)

  unless_denied-Returns :
      (reason : Option String) (t : fl.F) (skip : Bool) (w : World fl.F)
      → Returns (unless_denied fl env situation playbook reason t skip w)
  unfolding unless_denied rehearse_then
  unless_denied-Returns none t skip w =
      let p = plan fl env situation playbook in
      call_rule Returns (Effect.rehearse situation p) (λ log. env.rehearse log situation p)
        (rehearsed fl env situation playbook t skip) w
        (λ e. absurd (up.rehearses w.log situation p e)) (λ pf _. rehearsed-Returns t skip pf _)
  unless_denied-Returns (some reason) t skip w = refuse-Returns "denied-unsafe" reason w

  rbac_checked-Returns :
      (t : fl.F) (skip allowed : Bool) (w : World fl.F)
      → Returns (rbac_checked fl env situation playbook t skip allowed w)
  unfolding rbac_checked
  rbac_checked-Returns t skip true w = unless_denied-Returns (denylist_reason fl playbook) t skip w
  rbac_checked-Returns t skip false w = refuse-Returns "deny" "denied:rbac" w

  -- If no call raises, a run ends with an outcome, whatever the answers are.
  pub execute_remediation_returns :
      (t : fl.F) (skip : Bool) (w : World fl.F)
      → (execute_remediation fl env situation playbook t skip w).0 ≢ raised
  unfolding execute_remediation
  execute_remediation_returns t skip w =
      let res = resource fl env situation playbook in
      branch-Returns (is_disabled playbook.hitl_mode) _ _ w
        (refuse-Returns "skipped" "skipped:disabled" w)
        (branch-Returns (not playbook.reversible) _ _ w
          (refuse-Returns "refused" "refused:not-reversible" w)
          (call_rule Returns (Effect.check_rbac actor "execute" res)
            (λ log. env.check_rbac log actor "execute" res)
            (rbac_checked fl env situation playbook t skip) w
            (λ e. absurd (up.checks w.log actor "execute" res e))
            (λ allowed _. rbac_checked-Returns t skip allowed _)))
