-- ===== src/Action/Consumer/Claims.antt =====
-- The execution claim: a remediation is never run again on a redelivery.
use intelliops.Base.{
  ℕ, Bool, true, false, Option, none, some, ◌∷◌, ◌≡◌, Floats, arith, inl, inr, refl, subst,
}
use intelliops.Contracts.{DiagnosedSituation, Playbook, RemediationOutcome, failure}
use intelliops.Idempotency.{Guard}
use intelliops.Envelope.{is_done}
use intelliops.Action.Effects.{Env, Result, ok, raised, Result-cases, mutations}
use intelliops.Action.Remediate.Trail.{execute_remediation-Truthful}
use intelliops.Action.Remediate.Reported.{Truthful}
use intelliops.Action.Remediate.{execute_remediation}
use intelliops.Action.Consumer.{
  ◌>>=◌, lift, lift_rule, pure, first_attempt, act_on, remediate, waiver, select_playbook,
  mark_quiet, Stores, Config, Times, Node, claim_key, audit_best_effort, publish, finish,
  report_interrupted, escalate, handle, nothing_ran, pure, lift_rule, lift,
}

module _ (fl : Floats) (env : Env fl.F) (g : Guard) (stores : Stores) (config : Config fl.F)
    (diagnosed : DiagnosedSituation fl.F) (t : Times) where
  abbrev N : Type 0
  N = Node fl.F g.S

  pub report_interrupted_lem :
      (n : N)
      → let (r, n') = report_interrupted fl env g stores config diagnosed t n in
        (mutations n'.world.log ≡ mutations n.world.log)
        × (r ≡ ok tt
            → (ts : ℕ) × (n'.outbox
                ≡ nothing_ran fl env g stores config diagnosed t "" failure "interrupted:unknown" ts
                  ∷ n.outbox))
  unfolding report_interrupted audit_best_effort finish publish
  report_interrupted_lem n = (ground arith, λ h. (env.now n.world.readings, ground arith))

  -- A delivery that does not win the execution claim changes nothing on the cluster. If the claim
  -- is done it calls nothing and publishes nothing; otherwise, when it returns, it has published
  -- the one outcome that says that an earlier attempt was interrupted.
  pub handle_repeat :
      (n : N)
      → (g.claim t.claim_read t.claim_write
          (claim_key fl env g stores config diagnosed t)
          n.guard).0
        ≡ false
      → let key = claim_key fl env g stores config diagnosed t in
        let s = (g.claim t.claim_read t.claim_write key n.guard).1 in
        let (r, n') = handle fl env g stores config diagnosed t n in
        let finished = is_done (g.state t.state_read key s).0 in
        (mutations n'.world.log ≡ mutations n.world.log)
        × (finished ≡ true → (r ≡ ok tt) × (n'.world ≡ n.world) × (n'.outbox ≡ n.outbox))
        × (finished ≡ false
            → r ≡ ok tt
            → (ts : ℕ) × (n'.outbox
                ≡ nothing_ran fl env g stores config diagnosed t "" failure "interrupted:unknown" ts
                  ∷ n.outbox))
  unfolding handle
  handle_repeat n lost =
      let key = claim_key fl env g stores config diagnosed t in
      let s = (g.claim t.claim_read t.claim_write key n.guard).1 in
      let n' : N = record n { guard = (g.state t.state_read key s).1 } in
      let told = report_interrupted_lem n' in
      (
        ground (arith, told),
        λ e. ground arith,
        λ e h. let (ts, p) = told.1 (ground arith) in (ts, ground arith),
      )

  -- What handling keeps until the outcome is published.
  abbrev About : N → Result RemediationOutcome × N → Type 0
  About n (raised, n') = Unit
  About n (ok o, n') = (o.situation_id ≡ diagnosed.situation.id) × (n'.outbox ≡ n.outbox)

  escalate-About : (n : N) → About n (escalate fl env g stores config diagnosed t n)
  unfolding escalate audit_best_effort
  escalate-About n = ground arith

  remediate-About :
      (playbook : Playbook) (n : N)
      → About n (remediate fl env g stores config diagnosed t playbook n)
  unfolding remediate
  remediate-About playbook n =
      let s = diagnosed.situation in
      let run =
        λ (skip : Bool). execute_remediation fl env s playbook config.timeout_seconds skip in
      let mark = λ (skip : Bool) (o : RemediationOutcome).
        pure {F = fl.F} {S = g.S} (mark_quiet fl env g stores config diagnosed t skip playbook o) in
      lift_rule (About n) (waiver fl env g stores config diagnosed t playbook)
        (λ skip. lift (run skip) >>= mark skip) n (λ w. tt)
        (λ skip w e.
          lift_rule (About n) (run skip) (mark skip) (record n { world = w }) (λ w'. tt)
            (λ o w' e'.
              let told : Truthful fl env s playbook (ok o, w') =
                subst (Truthful fl env s playbook) e'
                  (execute_remediation-Truthful fl env s playbook config.timeout_seconds skip w) in
              (ground (arith, told.0), refl)))

  act_on-About :
      (p : Option Playbook) (n : N) → About n (act_on fl env g stores config diagnosed t p n)
  unfolding act_on
  act_on-About none n = escalate-About n
  act_on-About (some playbook) n = remediate-About playbook n

  -- A first attempt that returns has published exactly one outcome, about this situation.
  pub first_attempt_publishes :
      (n : N)
      → (first_attempt fl env g stores config diagnosed t n).0 ≡ ok tt
      → let n' = (first_attempt fl env g stores config diagnosed t n).1 in
        (o : RemediationOutcome) × (o.situation_id ≡ diagnosed.situation.id)
        × (n'.outbox ≡ o ∷ n.outbox)
  unfolding first_attempt finish publish
  first_attempt_publishes n h =
      let key = claim_key fl env g stores config diagnosed t in
      let n' : N = record n { guard = g.set_state t.progress_write key "in_progress" n.guard } in
      elim (Result-cases (select_playbook stores.find_playbook diagnosed)) [
        | inl e ↦ absurd (ground arith)
        | inr (p, e) ↦ elim (Result-cases (act_on fl env g stores config diagnosed t p n').0) [
          | inl e' ↦ absurd (ground arith)
          | inr (o, e') ↦
              let about = act_on-About p n' in (o, ground (arith, about), ground (arith, about))
        ]
      ]
