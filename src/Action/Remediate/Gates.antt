-- ===== src/Action/Remediate/Gates.antt =====
-- The safety gates: what must have happened before anything touches the cluster.
use intelliops.Base.{
  ◌<◌, Bool, true, false, not, ◌&&◌, ◌||◌, String, ==_iff, none, ◌∷◌, ◌++◌, ◌≡◌, ◌≢◌, ◌⊎◌, inl, inr,
  Floats, arith, Bool-cases, Option-cases,
}
use intelliops.Contracts.{
  Situation, PreflightResult, ApprovalRequest, Playbook, HitlMode-cases, auto, hitl, disabled,
  is_auto, RemediationResult,
}
use intelliops.Action.Denylist.{denylist_reason}
use intelliops.Action.Denylist.Safety.{AllSafe, denylist_reason-none_iff}
use intelliops.Action.Effects.{Env, World, Log, M, ok, Result-cases, ◌>>=◌, Effect, mutations}
use intelliops.Action.Remediate.{
  actor, resource, plan, wanted, audit, outcome, refuse, expire_best_effort, report, give_up,
  ask_human, abort_or_carry_out, approve_then_carry_out, rehearse_then, unless_denied,
  execute_remediation, rehearsed, rbac_checked,
}

module _ (fl : Floats) (env : Env fl.F) (situation : Situation fl.F) (playbook : Playbook) where
  abbrev Same : {A : Type 0} → M fl.F A → World fl.F → Type 0
  Same m w = mutations (m w).1.log ≡ mutations w.log

  refuse-Same : (d r : String) (w : World fl.F) → Same (refuse fl env situation playbook d r) w
  unfolding refuse audit outcome
  refuse-Same d r w = ground arith

  module _ (pf : PreflightResult) where
    report-Same :
        (d : String) (r : RemediationResult) (h : String) (w : World fl.F)
        → Same (report fl env situation playbook pf d r h) w
    unfolding report audit outcome
    report-Same d r h w = ground arith

    ask_human-Same : (t : fl.F) (w : World fl.F) → Same (ask_human fl env situation playbook pf t) w
    unfolding ask_human give_up expire_best_effort
    ask_human-Same t w = ground arith

    -- The human was asked and approved.
    abbrev Approved : fl.F → Log fl.F → Type 0
    Approved t log =
        let asked = wanted fl env situation playbook pf in
        (request : ApprovalRequest) × (decided : ApprovalRequest) × (env.request_approval log asked
          ≡ ok request)
        × (env.await_decision (Effect.request_approval asked ∷ log) request.id t ≡ ok decided)
        × (decided.status ≡ "approved")

    ask_human-Approved :
        (t : fl.F) (w : World fl.F)
        → (ask_human fl env situation playbook pf t w).0 ≡ ok none
        → Approved t w.log
    unfolding ask_human give_up expire_best_effort
    ask_human-Approved t w h =
        let asked = wanted fl env situation playbook pf in
        elim (Result-cases (env.request_approval w.log asked)) [
          | inl e ↦ absurd (ground arith)
          | inr (q, e) ↦
              elim (Result-cases
                (env.await_decision (Effect.request_approval asked ∷ w.log) q.id t)) [
                  | inl e' ↦ absurd (ground arith)
                  | inr (d, e') ↦ (q, d, e, e', ground (arith, ==_iff d.status "approved"))
                ]
        ]

    -- What lets a rehearsed plan be carried out.
    abbrev Consent : fl.F → Bool → Log fl.F → Type 0
    Consent t skip log =
        ((playbook.hitl_mode ≡ auto) × (pf.passed ≡ true))
        ⊎ ((playbook.hitl_mode ≡ hitl) × (skip ≡ true) × (pf.passed ≡ true))
        ⊎ ((playbook.hitl_mode ≡ hitl) × (skip ≡ false) × Approved t log)

    asked-Approved :
        (t : fl.F) (w : World fl.F)
        → mutations w.log
          < mutations
              ((ask_human fl env situation playbook pf t
                  >>= abort_or_carry_out fl env situation playbook pf)
                w).1.log
        → Approved t w.log
    unfolding abort_or_carry_out audit outcome
    asked-Approved t w h = ask_human-Approved t w (ground (arith, ask_human-Same t w))

    gate3-Consent :
        (t : fl.F) (skip : Bool) (w : World fl.F)
        → (playbook.hitl_mode ≢ disabled)
        → ((not pf.passed && (is_auto playbook.hitl_mode || skip)) ≡ false)
        → mutations w.log
          < mutations (approve_then_carry_out fl env situation playbook pf t skip w).1.log
        → Consent t skip w.log
    unfolding approve_then_carry_out
    gate3-Consent t skip w on must h = elim (HitlMode-cases playbook.hitl_mode) [
      | inl e ↦ inl (e, ground arith)
      | inr (inl e) ↦ elim (Bool-cases skip) [
        | inl s ↦ inr (inl (e, s, ground arith))
        | inr s ↦ inr (inr (e, s, asked-Approved t w (ground arith)))
      ]
      | inr (inr e) ↦ absurd (on e)
    ]

  -- The calls made before the rehearsal, and before gate 3.
  abbrev admitted_log : Log fl.F → Log fl.F
  admitted_log log = Effect.check_rbac actor "execute" (resource fl env situation playbook) ∷ log

  abbrev rehearsed_log : Log fl.F → Log fl.F
  rehearsed_log log = Effect.rehearse situation (plan fl env situation playbook) ∷ admitted_log log

  -- All that has to hold before anything is changed.
  abbrev pub Cleared : fl.F → Bool → Log fl.F → Type 0
  Cleared t skip log =
      (playbook.hitl_mode ≢ disabled)
      × (playbook.reversible ≡ true)
      × (env.check_rbac log actor "execute" (resource fl env situation playbook) ≡ ok true)
      × AllSafe fl (playbook.steps ++ playbook.rollback_steps)
      × ((pf : PreflightResult) × (env.rehearse (admitted_log log) situation
              (plan fl env situation playbook)
            ≡ ok pf)
          × Consent pf t skip (rehearsed_log log))

  rehearse_then-Cleared :
      (t : fl.F) (skip : Bool) (w : World fl.F)
      → (playbook.hitl_mode ≢ disabled)
      → mutations w.log < mutations (rehearse_then fl env situation playbook t skip w).1.log
      → (pf : PreflightResult) × (env.rehearse w.log situation (plan fl env situation playbook)
          ≡ ok pf)
        × Consent pf t skip (Effect.rehearse situation (plan fl env situation playbook) ∷ w.log)
  unfolding rehearse_then rehearsed
  rehearse_then-Cleared t skip w on h =
      elim (Result-cases (env.rehearse w.log situation (plan fl env situation playbook))) [
        | inl e ↦ absurd (ground arith)
        | inr (pf, e) ↦
            let w' : World fl.F = record w {
              log = Effect.rehearse situation (plan fl env situation playbook) ∷ w.log;
            } in
            (
              pf,
              e,
              gate3-Consent pf t skip w' on
                  (ground (
                    arith,
                    report-Same pf "preflight-failed" RemediationResult.failure "preflight-failed"
                        w',
                  ))
                  (ground (
                    arith,
                    report-Same pf "preflight-failed" RemediationResult.failure "preflight-failed"
                        w',
                  )),
            )
      ]

  -- Nothing touches the cluster (no execute, no rollback) unless all gates were passed in this run:
  -- the playbook is neither disabled nor irreversible, the policy answered that the action service
  -- may run it, every step is safe, the rehearsal answered, and either it passed where no human is
  -- asked (auto, or a waived approval) or a human was asked and the decision read is "approved".
  pub execute_remediation-Cleared :
      (t : fl.F) (skip : Bool) (w : World fl.F)
      → mutations w.log < mutations (execute_remediation fl env situation playbook t skip w).1.log
      → Cleared t skip w.log
  unfolding execute_remediation rbac_checked unless_denied
  execute_remediation-Cleared t skip w h =
      let res = resource fl env situation playbook in
      let w' : World fl.F = record w { log = admitted_log w.log } in
      let on : playbook.hitl_mode ≢ disabled =
        λ e. ground (arith, refuse-Same "skipped" "skipped:disabled" w) in
      let undo : playbook.reversible ≡ true =
        ground (arith, refuse-Same "refused" "refused:not-reversible" w) in
      let may : env.check_rbac w.log actor "execute" res ≡ ok true =
        ground (arith, refuse-Same "deny" "denied:rbac" w') in
      elim (Option-cases (denylist_reason fl playbook)) [
        | inl e ↦ (
          on,
          undo,
          may,
          (denylist_reason-none_iff fl playbook).0 e,
          rehearse_then-Cleared t skip w' on (ground arith),
        )
        | inr (reason, e) ↦ absurd (ground (arith, refuse-Same "denied-unsafe" reason w'))
      ]
