-- ===== src/Action/Consumer.antt =====
-- services/action/consumer.py and select.py: one diagnosed situation, from the execution claim to
-- the published outcome.
pub mod Claims
pub mod Returns
pub mod Waiver
use intelliops.Base.{
  ◌≡◌, refl, ℕ, ℤ, Bool, false, not, ◌&&◌, ◌||◌, String, ◌<>◌, ◌==◌, Option, none, some, List, [],
  ◌∷◌, Floats, if◌then◌else◌,
}
use intelliops.Contracts.{
  Situation, DiagnosedSituation, RemediationOutcome, AuditRecord, Playbook, HitlMode, is_hitl,
  is_auto, RemediationResult, TrainingRecord,
}
use intelliops.Idempotency.{Guard}
use intelliops.Envelope.{is_done, done}
use intelliops.Evidence.{quiet_eligible, show_record, TrackRecord}
use intelliops.Action.Effects.{Env, World, M, Result, ok, raised, Effect, best_effort, clock}
use intelliops.Action.Effects
use intelliops.Action.Remediate.{actor, execute_remediation}

-- What the consumer asks of its stores and of the bus; each may raise.
pub record Stores : Type 0 where
  -- `store.get`
  pub find_playbook : String → Result (Option Playbook)
  -- `training_store.read_all`, if there is a training store
  pub read_training : Option (Result (List TrainingRecord))
  -- `publish_model(bus, "remediation.outcomes", …)` after the outcomes published so far
  pub publish : List RemediationOutcome → RemediationOutcome → Result (Unit {0})
  -- `datetime.isoformat`
  pub isoformat : ℕ → String

pub record Config (F : Type 0) : Type 0 where
  pub timeout_seconds : F
  pub quiet_threshold : F
  pub quiet_min_samples : ℤ
  pub quiet_skip_approval : Bool

-- The readings of the guard's clock while one situation is handled.
pub record Times : Type 0 where
  pub claim_read : ℕ
  pub claim_write : ℕ
  pub state_read : ℕ
  pub progress_write : ℕ
  pub done_write : ℕ

-- The calls made, the guard, and the outcomes on the bus, the latest first.
pub record Node (F S : Type 0) : Type 0 where
  pub world : World F
  pub guard : S
  pub outbox : List RemediationOutcome

abbrev pub C : Type 0 → Type 0 → Type 0 → Type 0
C F S A = Node F S → Result A × Node F S

infixl 5 ◌>>=◌ ◌>>◌
abbrev pub ◌>>=◌ : {F S A B : Type 0} → C F S A → (A → C F S B) → C F S B
◌>>=◌ m f n = let (r, n') = m n in elim r [ ok a ↦ f a n' | raised ↦ (raised, n') ]

abbrev pub ◌>>◌ : {F S A B : Type 0} → C F S A → C F S B → C F S B
m >> k = m >>= λ _. k

abbrev pub pure : {F S A : Type 0} → A → C F S A
pure a n = (ok a, n)

-- A run against the gate, the remediator and so on.
abbrev pub lift : {F S A : Type 0} → M F A → C F S A
lift m n = let (r, w) = m n.world in (r, record n { world = w })

-- A lifted run and what follows it: a property holds if it holds for each answer.
pub lift_rule {ℓ} :
    {F S A B : Type 0} (P : Result B × Node F S → Type ℓ) (m : M F A) (f : A → C F S B)
    (n : Node F S)
    → ((w : World F) → P (raised, record n { world = w }))
    → ((a : A) (w : World F) → m n.world ≡ (ok a, w) → P (f a (record n { world = w })))
    → P ((lift m >>= f) n)
lift_rule {F} {S} {A} {B} P m f n lost got = go (m n.world) refl
  where
    go :
        (x : Result A × World F)
        → m n.world ≡ x
        → P (
            let n' : Node F S = record n { world = x.1 } in
            let out : Result B × Node F S = elim (x.0) [ ok a ↦ f a n' | raised ↦ (raised, n') ] in
            out)
    go (ok a, w) e = got a w e
    go (raised, w) e = lost w

abbrev pub on_guard : {F S : Type 0} → (S → S) → C F S Unit
on_guard f n = (ok tt, record n { guard = f n.guard })

-- `select_playbook`
unfoldable pub select_playbook :
    {F : Type 0}
    → (String → Result (Option Playbook))
    → DiagnosedSituation F
    → Result (Option Playbook)
select_playbook find diagnosed = elim (diagnosed.suggested_runbook_id) [
  | none ↦ ok none
  | some id ↦ find id
]

module _ (fl : Floats) (env : Env fl.F) (g : Guard) (stores : Stores) (config : Config fl.F) where
  open fl use {F}

  -- `_audit_best_effort`
  unfoldable pub audit_best_effort : (situation_id action decision : String) → M F Unit
  audit_best_effort situation_id action decision = best_effort (
      Effects.◌>>=◌ (clock env) (λ ts.
        let row : AuditRecord = record {
          actor = actor;
          action = action;
          resource = "situation:" <> situation_id;
          decision = decision;
          ts = ts;
          correlation_id = situation_id;
        } in
        Effects.call (Effect.write_audit row) (λ log. env.write_audit log row)))

  abbrev weigh : Situation F → Playbook → List TrainingRecord → Bool × Option TrackRecord
  weigh situation playbook records =
      let (eligible, t) =
        quiet_eligible fl records situation.signature playbook.id config.quiet_threshold
          config.quiet_min_samples in
      (eligible, some t)

  -- The track record, where it may be used and can be read.
  unfoldable pub quiet_verdict : Situation F → Playbook → Bool × Option TrackRecord
  quiet_verdict situation playbook = elim (stores.read_training) [
    | none ↦ (false, none)
    | some answer ↦ elim answer [
      | raised ↦ (false, none)
      | ok records ↦
          if config.quiet_skip_approval then weigh situation playbook records else (false, none)
    ]
  ]

  abbrev evidence_text : Option TrackRecord → String
  evidence_text t =
      if config.quiet_skip_approval
      then (elim t [ none ↦ "no track record available" | some r ↦ show_record r ])
      else "quiet approval disabled (QUIET_SKIP_APPROVAL=false)"

  -- `_quiet_decision`
  unfoldable pub quiet_decision : Situation F → Playbook → M F Bool
  quiet_decision situation playbook =
      if not (is_hitl playbook.hitl_mode)
      then Effects.pure false
      else let (eligible, t) = quiet_verdict situation playbook in
        let decision = if eligible then "quiet:skip-approval" else "quiet:needs-approval" in
        Effects.◌>>◌
          (audit_best_effort situation.id "quiet-handling"
            (decision <> " (" <> evidence_text t <> ")"))
          (Effects.pure eligible)

  -- `publish_model(bus, "remediation.outcomes", outcome)`
  unfoldable pub publish : RemediationOutcome → C F g.S Unit
  publish o n = elim (stores.publish n.outbox o) [
    | ok _ ↦ (ok tt, record n { outbox = o ∷ n.outbox })
    | raised ↦ (raised, n)
  ]

  module _ (diagnosed : DiagnosedSituation F) (t : Times) where
    open diagnosed use {situation}

    abbrev pub claim_key : String
    claim_key = "action:exec:" <> situation.id <> ":" <> stores.isoformat situation.first_seen

    -- An outcome of a situation for which nothing was run.
    abbrev pub nothing_ran : String → RemediationResult → String → ℕ → RemediationOutcome
    nothing_ran playbook_id result reason ts = record {
      situation_id = situation.id;
      playbook_id = playbook_id;
      result = result;
      health_after = reason;
      ts = ts;
      hitl_mode = HitlMode.disabled;
      steps = [];
      mode = "none";
      preflight = none;
      handling = "normal";
    }

    unfoldable pub finish : RemediationOutcome → C F g.S Unit
    finish o = do publish o; on_guard (g.set_state t.done_write claim_key done)

    -- An earlier attempt died on the way: nobody can tell whether it changed the cluster.
    unfoldable pub report_interrupted : C F g.S Unit
    report_interrupted = do
      ts ← lift (clock env)
      lift (audit_best_effort situation.id "interrupted" "unknown-if-mutated")
      finish (nothing_ran "" RemediationResult.failure "interrupted:unknown" ts)

    -- No playbook: the two reasons are told apart.
    unfoldable pub escalate : C F g.S RemediationOutcome
    escalate = do
      ts ← lift (clock env)
      let suggested = elim (diagnosed.suggested_runbook_id) as (λ _. String) [
        | none ↦ ""
        | some id ↦ id
      ]
      lift (audit_best_effort situation.id "escalate" "escalated")
      pure (
          nothing_ran suggested RemediationResult.escalated
            (if suggested == "" then "escalated:no-diagnosis" else "escalated:unknown-runbook") ts)

    -- Nobody was asked.
    abbrev pub mark_quiet : Bool → Playbook → RemediationOutcome → RemediationOutcome
    mark_quiet skip playbook o =
        if situation.handling == "quiet" && (skip || is_auto playbook.hitl_mode)
        then record o { handling = "quiet" }
        else o

    unfoldable pub waiver : Playbook → M F Bool
    waiver playbook =
        if situation.handling == "quiet"
        then quiet_decision situation playbook
        else Effects.pure false

    unfoldable pub remediate : Playbook → C F g.S RemediationOutcome
    remediate playbook = do
      skip ← lift (waiver playbook)
      o ← lift (execute_remediation fl env situation playbook config.timeout_seconds skip)
      pure (mark_quiet skip playbook o)

    unfoldable pub act_on : Option Playbook → C F g.S RemediationOutcome
    act_on none = escalate
    act_on (some playbook) = remediate playbook

    -- The claim was won: this is the first attempt.
    unfoldable pub first_attempt : C F g.S Unit
    first_attempt = do
      on_guard (g.set_state t.progress_write claim_key "in_progress")
      playbook ← (λ n. (select_playbook stores.find_playbook diagnosed, n))
      o ← act_on playbook
      finish o

    -- The body of `run_consumer`'s loop.
    unfoldable pub handle : C F g.S Unit
    handle n =
        let (won, s) = g.claim t.claim_read t.claim_write claim_key n.guard in
        let (status, s') = g.state t.state_read claim_key s in
        if won
        then first_attempt (record n { guard = s })
        else if is_done status
        then (ok tt, record n { guard = s' })
        else report_interrupted (record n { guard = s' })
