-- ===== src/Action/Remediate/Reported.antt =====
-- What the outcome and the last audit row of a run say, and the branches from the plan's execution on.
use intelliops.Base.{
  ℕ, ◌+◌, Bool, true, false, String, ==_iff, Option, none, some, List, [], ◌∷◌, ◌≡◌, ◌≢◌, refl,
  Floats, if◌then◌else◌, arith,
}
use intelliops.Contracts.{
  Situation, RemediationStep, RemediationPlan, RemediationOutcome, PreflightResult, AuditRecord,
  Playbook, RemediationResult, success, failure, rolled_back, escalated,
}
use intelliops.Action.Effects.{Env, World, Log, M, Result, ok, raised, ◌>>◌, Effect, call_rule}
use intelliops.Action.Remediate.{
  resource, plan, audit, outcome, refuse, report, roll_back, verify, carry_out, abort_or_carry_out,
  audit_row, health_checked, rollback_done, executed,
}

module _ (fl : Floats) (env : Env fl.F) (situation : Situation fl.F) (playbook : Playbook) where
  abbrev the_plan : RemediationPlan
  the_plan = plan fl env situation playbook

  abbrev health_call : Effect fl.F
  health_call = Effect.check_health situation the_plan.target

  -- The log after a run ends with the row, which is about this situation and this playbook.
  abbrev EndsWith : Log fl.F → AuditRecord → Log fl.F → Type 0
  EndsWith log row rest =
      (log ≡ Effect.write_audit row ∷ rest)
      × (row.correlation_id ≡ situation.id)
      × (row.resource ≡ resource fl env situation playbook)

  abbrev pub Reported : RemediationResult → Log fl.F → Type 0
  Reported success log =
      (row : AuditRecord) × (rest : Log fl.F) × EndsWith log row
        (health_call ∷ Effect.execute the_plan ∷ rest)
      × (row.decision ≡ "allow")
      × (env.execute rest the_plan ≡ ok true)
      × (env.check_health (Effect.execute the_plan ∷ rest) situation the_plan.target ≡ ok true)
  Reported rolled_back log =
      (row : AuditRecord) × (rest : Log fl.F) × EndsWith log row
        (Effect.rollback the_plan ∷ health_call ∷ Effect.execute the_plan ∷ rest)
      × (row.decision ≡ "rolled-back")
      × (env.execute rest the_plan ≡ ok true)
      × (env.check_health (Effect.execute the_plan ∷ rest) situation the_plan.target ≡ ok false)
      × (env.rollback (health_call ∷ Effect.execute the_plan ∷ rest) the_plan ≡ ok true)
  Reported failure log =
      (row : AuditRecord) × (rest : Log fl.F) × EndsWith log row rest
      × (row.decision ≢ "allow")
      × (row.decision ≢ "rolled-back")
  Reported escalated log = ⊥

  abbrev pub Truthful : Result RemediationOutcome × World fl.F → Type 0
  Truthful (raised, w) = Unit
  Truthful (ok o, w) =
      (o.situation_id ≡ situation.id) × (o.playbook_id ≡ playbook.id) × Reported o.result w.log

  -- A run that failed: what its last row says, and nothing else.
  abbrev Failed : String → Log fl.F → Type 0
  Failed d log =
      (row : AuditRecord) × (rest : Log fl.F) × EndsWith log row rest × (row.decision ≡ d)

  -- An audit row, then an outcome, after which nothing is called.
  pub close_rule :
      (d : String) (result : RemediationResult) (r : String) (steps : List String) (mode : String)
      (pf : Option PreflightResult) (w : World fl.F)
      → ((ts : ℕ)
          → Reported result (Effect.write_audit (audit_row fl env situation playbook d ts) ∷ w.log))
      → Truthful (
          (audit fl env situation playbook d
              >> outcome fl env situation playbook result r steps mode pf)
            w)
  unfolding audit outcome
  close_rule d result r steps mode pf w h =
      let ts = env.now w.readings in
      let row = audit_row fl env situation playbook d ts in
      call_rule Truthful (Effect.write_audit row) (λ log. env.write_audit log row)
        (λ _. outcome fl env situation playbook result r steps mode pf)
        (record w { readings = w.readings + 1 }) (λ _. tt) (λ _ _. (refl, refl, h ts))

  pub refuse-Truthful :
      (d r : String) (w : World fl.F)
      → d ≢ "allow"
      → d ≢ "rolled-back"
      → Truthful (refuse fl env situation playbook d r w)
  unfolding refuse
  refuse-Truthful d r w h k =
      close_rule d failure r [] "dry_run" none w
        (λ ts. (audit_row fl env situation playbook d ts, w.log, (refl, refl, refl), h, k))

  -- A branch of code, under its test.
  pub branch_rule :
      (b : Bool) (m k : M fl.F RemediationOutcome) (w : World fl.F)
      → Truthful (m w)
      → Truthful (k w)
      → Truthful ((if b then m else k) w)
  branch_rule true m k w hm hk = hm
  branch_rule false m k w hm hk = hk

  module _ (pf : PreflightResult) where
    report_rule :
        (d : String) (result : RemediationResult) (r : String) (w : World fl.F)
        → ((ts : ℕ)
            → Reported result
                (Effect.write_audit (audit_row fl env situation playbook d ts) ∷ w.log))
        → Truthful (report fl env situation playbook pf d result r w)
    unfolding report
    report_rule d result r w h = close_rule d result r _ _ (some pf) w h

    pub report_failure :
        (d r : String) (w : World fl.F)
        → d ≢ "allow"
        → d ≢ "rolled-back"
        → Truthful (report fl env situation playbook pf d failure r w)
    report_failure d r w h k =
        report_rule d failure r w
          (λ ts. (audit_row fl env situation playbook d ts, w.log, (refl, refl, refl), h, k))

    -- The facts that a roll back starts from.
    abbrev Unhealthy : Log fl.F → Type 0
    Unhealthy log =
        (rest : Log fl.F) × (log ≡ health_call ∷ Effect.execute the_plan ∷ rest)
        × (env.execute rest the_plan ≡ ok true)
        × (env.check_health (Effect.execute the_plan ∷ rest) situation the_plan.target ≡ ok false)

    rollback_done-Truthful :
        (undone : Bool) (log : Log fl.F) (n : ℕ)
        → Unhealthy log
        → env.rollback log the_plan ≡ ok undone
        → Truthful (
            rollback_done fl env situation playbook pf undone
              (record { log = Effect.rollback the_plan ∷ log; readings = n }))
    unfolding rollback_done
    rollback_done-Truthful true log n (rest, l, x, c) e =
        report_rule "rolled-back" rolled_back "unhealthy:rolled-back" _ (λ ts. (
          audit_row fl env situation playbook "rolled-back" ts,
          rest,
          (ground arith, refl, refl),
          refl,
          x,
          c,
          ground arith,
        ))
    rollback_done-Truthful false log n h e =
        report_failure "rollback-failed" "unhealthy:rollback-failed" _
          (ground (arith, ==_iff "rollback-failed" "allow"))
          (ground (arith, ==_iff "rollback-failed" "rolled-back"))

    roll_back-Truthful :
        (steps : List RemediationStep) (w : World fl.F)
        → Unhealthy w.log
        → Truthful (roll_back fl env situation playbook pf steps w)
    unfolding roll_back
    roll_back-Truthful [] w h =
        report_failure "unhealthy-no-rollback" "unhealthy:no-rollback" w
          (ground (arith, ==_iff "unhealthy-no-rollback" "allow"))
          (ground (arith, ==_iff "unhealthy-no-rollback" "rolled-back"))
    roll_back-Truthful (s ∷ steps) w h =
        call_rule Truthful (Effect.rollback the_plan) (λ log. env.rollback log the_plan)
          (rollback_done fl env situation playbook pf) w (λ _. tt)
          (λ undone e. rollback_done-Truthful undone w.log w.readings h e)

    -- The facts that the health check starts from.
    abbrev Changed : Log fl.F → Type 0
    Changed log =
        (rest : Log fl.F) × (log ≡ Effect.execute the_plan ∷ rest)
        × (env.execute rest the_plan ≡ ok true)

    health_checked-Truthful :
        (healthy : Bool) (log : Log fl.F) (n : ℕ)
        → Changed log
        → env.check_health log situation the_plan.target ≡ ok healthy
        → Truthful (
            health_checked fl env situation playbook pf healthy
              (record { log = health_call ∷ log; readings = n }))
    unfolding health_checked
    health_checked-Truthful true log n (rest, l, x) e =
        report_rule "allow" success "healthy" _ (λ ts. (
          audit_row fl env situation playbook "allow" ts,
          rest,
          (ground arith, refl, refl),
          refl,
          x,
          ground arith,
        ))
    health_checked-Truthful false log n (rest, l, x) e =
        roll_back-Truthful playbook.rollback_steps _ (rest, ground arith, x, ground arith)

    executed-Truthful :
        (done : Bool) (log : Log fl.F) (n : ℕ)
        → env.execute log the_plan ≡ ok done
        → Truthful (
            executed fl env situation playbook pf done
              (record { log = Effect.execute the_plan ∷ log; readings = n }))
    unfolding executed verify
    executed-Truthful true log n e =
        call_rule Truthful health_call (λ log. env.check_health log situation the_plan.target)
          (health_checked fl env situation playbook pf) _ (λ _. tt)
          (λ healthy. health_checked-Truthful healthy _ _ (log, refl, e))
    executed-Truthful false log n e =
        report_failure "execute-failed" "execute-failed" _
          (ground (arith, ==_iff "execute-failed" "allow"))
          (ground (arith, ==_iff "execute-failed" "rolled-back"))

    pub carry_out-Truthful : (w : World fl.F) → Truthful (carry_out fl env situation playbook pf w)
    unfolding carry_out
    carry_out-Truthful w =
        call_rule Truthful (Effect.execute the_plan) (λ log. env.execute log the_plan)
          (executed fl env situation playbook pf) w (λ _. tt)
          (λ done. executed-Truthful done w.log w.readings)

    pub abort_or_carry_out-Truthful :
        (stop : Option String) (w : World fl.F)
        → Truthful (abort_or_carry_out fl env situation playbook pf stop w)
    unfolding abort_or_carry_out
    abort_or_carry_out-Truthful none w = carry_out-Truthful w
    abort_or_carry_out-Truthful (some reason) w =
        close_rule "abort" failure reason [] "dry_run" (some pf) w (λ ts. (
          audit_row fl env situation playbook "abort" ts,
          w.log,
          (refl, refl, refl),
          ground (arith, ==_iff "abort" "allow"),
          ground (arith, ==_iff "abort" "rolled-back"),
        ))
