-- ===== src/Tests/Action.antt =====
-- Action-service at concrete inputs: a cluster that answers every call, and a remembered claim.
use intelliops.Supervise.{Round, supervise, backoffs, goes_on, supervise-backoffs}
use intelliops.Correlation.Policy.{DetectionPolicy}
use intelliops.Action.Recovery.{firing, metric_healthy, Recovered, metric_healthy_iff}
use intelliops.Base.{
  ◌≢◌, All, all, length, ℕ, ◌≤◌, pos, Bool, true, false, String, Option, none, some, List, [], ◌∷◌,
  ◌≡◌, refl, arith, ◌↔◌, ◌++◌,
}
use intelliops.Contracts.{HitlMode, RemediationOutcome, RemediationResult}
use intelliops.Idempotency.{memory_guard, MemoryGuard, claim, live}
use intelliops.Envelope.{is_done}
use intelliops.Tests.{floats}
use intelliops.Tests.Data.{sit, playbook, diagnosed, run_of}
use intelliops.Action.Denylist.{denylist_reason}
use intelliops.Action.Denylist.Safety.{AllSafe, denylist_reason-none_iff}
use intelliops.Action.Effects.{Env, World, ok, mutations, Result}
use intelliops.Action.Remediate.{execute_remediation}
use intelliops.Action.Remediate.Gates.{Cleared, execute_remediation-Cleared}
use intelliops.Action.Remediate.Trail.{execute_remediation-Truthful}
use intelliops.Action.Remediate.Reported.{Truthful}
use intelliops.Action.Consumer.{
  Stores, Config, Times, Node, claim_key, handle, first_attempt, waiver, nothing_ran,
}
use intelliops.Action.Consumer.Claims.{handle_repeat, first_attempt_publishes}
use intelliops.Action.Consumer.Waiver.{Evidence, waiver-Evidence}

abbrev env : Env ℕ
env = record {
  check_rbac = λ _ _ _ _. ok true;
  write_audit = λ _ _. ok tt;
  request_approval = λ _ r. ok r;
  await_decision = λ _ id _. ok (record {
    id = id;
    situation_id = "sit-abc";
    playbook_id = "pb-1";
    requested_by = "action-service";
    status = "approved";
    decided_by = some "ann";
    preflight = none;
  });
  has_expire = true;
  expire = λ _ _ _. ok tt;
  rehearse =
      λ _ _ _. ok (record { passed = true; detail = ""; mode = "none"; sandbox_namespace = none });
  execute = λ _ _. ok true;
  rollback = λ _ _. ok true;
  check_health = λ _ _ _. ok true;
  now = λ n. n;
  k8s_namespace = "default";
  remediator_mode = "k8s";
}

abbrev start : World ℕ
start = record { log = []; readings = 0 }

execute_remediation-Cleared_example : Cleared floats env sit (playbook HitlMode.hitl) 30000 false []
unfolding execute_remediation intelliops.Action.Remediate.rbac_checked
    intelliops.Action.Remediate.unless_denied intelliops.Action.Remediate.rehearse_then
    intelliops.Action.Remediate.rehearsed intelliops.Action.Remediate.approve_then_carry_out
    intelliops.Action.Remediate.ask_human intelliops.Action.Remediate.abort_or_carry_out
    intelliops.Action.Remediate.carry_out intelliops.Action.Remediate.executed
    intelliops.Action.Remediate.verify intelliops.Action.Remediate.health_checked
    intelliops.Action.Remediate.roll_back intelliops.Action.Remediate.rollback_done
    intelliops.Action.Remediate.report intelliops.Action.Remediate.refuse
    intelliops.Action.Remediate.give_up intelliops.Action.Remediate.audit
    intelliops.Action.Remediate.outcome intelliops.Action.Remediate.expire_best_effort
    denylist_reason intelliops.Action.Denylist.first_reason intelliops.Action.Denylist.step_reason
    intelliops.Action.Denylist.limits_reason intelliops.Action.Denylist.cpu_millicores
    intelliops.Action.Denylist.mem_mebibytes intelliops.Action.Denylist.probe_reason
    intelliops.Base.before_suffix intelliops.Base.strip
execute_remediation-Cleared_example =
    execute_remediation-Cleared floats env sit (playbook HitlMode.hitl) 30000 false start
      (omega arith)

execute_remediation-Truthful_example :
    Truthful floats env sit
      (playbook HitlMode.auto)
      (execute_remediation floats env sit (playbook HitlMode.auto) 30000 false start)
execute_remediation-Truthful_example =
    execute_remediation-Truthful floats env sit (playbook HitlMode.auto) 30000 false start

denylist_reason-none_iff_example :
    (denylist_reason floats (playbook HitlMode.auto) ≡ none)
    ↔ AllSafe floats ((playbook HitlMode.auto).steps ++ (playbook HitlMode.auto).rollback_steps)
denylist_reason-none_iff_example = denylist_reason-none_iff floats (playbook HitlMode.auto)

abbrev stores : Stores
stores = record {
  find_playbook = λ _. ok (some (playbook HitlMode.hitl));
  read_training =
      some
        (ok (run_of RemediationResult.success true ∷ run_of RemediationResult.success true ∷ []));
  publish = λ _ _. ok tt;
  isoformat = λ _. "2026";
}

abbrev config : Config ℕ
config = record {
  timeout_seconds = 30000;
  quiet_threshold = 900;
  quiet_min_samples = pos 2;
  quiet_skip_approval = true;
}

abbrev times : Times
times = record {
  claim_read = 10;
  claim_write = 10;
  state_read = 10;
  progress_write = 11;
  done_write = 12;
}

abbrev guard : MemoryGuard
guard = record { max_keys = 3; ttl = 100; seen = [] }

abbrev taken : MemoryGuard
taken = record {
  max_keys = 3;
  ttl = 100;
  seen = ("action:exec:sit-abc:2026", ("in_progress", 50)) ∷ [];
}

abbrev node : MemoryGuard → Node ℕ MemoryGuard
node g = record { world = start; guard = g; outbox = [] }

waiver-Evidence_example :
    (sit.handling ≡ "quiet")
    × ((playbook HitlMode.hitl).hitl_mode ≡ HitlMode.hitl)
    × Evidence floats env memory_guard stores config sit (playbook HitlMode.hitl)
unfolding waiver intelliops.Action.Consumer.quiet_decision
    intelliops.Action.Consumer.audit_best_effort intelliops.Action.Consumer.quiet_verdict
    intelliops.Evidence.quiet_eligible intelliops.Evidence.track_record
    intelliops.Evidence.track_from intelliops.Evidence.is_real_mode intelliops.Evidence.ratio
waiver-Evidence_example =
    waiver-Evidence floats env memory_guard stores config diagnosed times (playbook HitlMode.hitl)
      start refl

abbrev key : String
key = claim_key floats env memory_guard stores config diagnosed times

handle_repeat_example :
    let n = node taken in
    let s = (claim 10 10 key taken).1 in
    let (r, n') = handle floats env memory_guard stores config diagnosed times n in
    (mutations n'.world.log ≡ mutations n.world.log)
    × (is_done (live 10 key s).0 ≡ true
        → (r ≡ ok tt) × (n'.world ≡ n.world) × (n'.outbox ≡ n.outbox))
    × (is_done (live 10 key s).0 ≡ false
        → r ≡ ok tt
        → (ts : ℕ) × (n'.outbox
            ≡ nothing_ran floats env memory_guard stores config diagnosed times ""
                RemediationResult.failure "interrupted:unknown" ts
              ∷ n.outbox))
unfolding claim live intelliops.Base.Dict.lookup
handle_repeat_example =
    handle_repeat floats env memory_guard stores config diagnosed times (node taken) refl

first_attempt_publishes_example :
    let n' = (first_attempt floats env memory_guard stores config diagnosed times (node guard)).1 in
    (o : RemediationOutcome) × (o.situation_id ≡ "sit-abc") × (n'.outbox ≡ o ∷ [])
unfolding first_attempt intelliops.Action.Consumer.select_playbook intelliops.Action.Consumer.act_on
    intelliops.Action.Consumer.remediate intelliops.Action.Consumer.finish
    intelliops.Action.Consumer.publish execute_remediation intelliops.Action.Remediate.rbac_checked
    intelliops.Action.Remediate.unless_denied intelliops.Action.Remediate.rehearse_then
    intelliops.Action.Remediate.rehearsed intelliops.Action.Remediate.approve_then_carry_out
    intelliops.Action.Remediate.ask_human intelliops.Action.Remediate.abort_or_carry_out
    intelliops.Action.Remediate.carry_out intelliops.Action.Remediate.executed
    intelliops.Action.Remediate.verify intelliops.Action.Remediate.health_checked
    intelliops.Action.Remediate.roll_back intelliops.Action.Remediate.rollback_done
    intelliops.Action.Remediate.report intelliops.Action.Remediate.refuse
    intelliops.Action.Remediate.give_up intelliops.Action.Remediate.audit
    intelliops.Action.Remediate.outcome intelliops.Action.Remediate.expire_best_effort
    denylist_reason intelliops.Action.Denylist.first_reason intelliops.Action.Denylist.step_reason
    intelliops.Action.Denylist.limits_reason intelliops.Action.Denylist.cpu_millicores
    intelliops.Action.Denylist.mem_mebibytes intelliops.Action.Denylist.probe_reason
    intelliops.Base.before_suffix intelliops.Base.strip waiver
    intelliops.Action.Consumer.quiet_decision intelliops.Action.Consumer.audit_best_effort
    intelliops.Action.Consumer.quiet_verdict intelliops.Evidence.quiet_eligible
    intelliops.Evidence.track_record intelliops.Evidence.track_from intelliops.Evidence.is_real_mode
    intelliops.Evidence.ratio
first_attempt_publishes_example =
    first_attempt_publishes floats env memory_guard stores config diagnosed times (node guard) refl

abbrev query : String → Option String → Result (Option ℕ)
query name service = ok (some 100000)

abbrev policy : DetectionPolicy ℕ
policy = record {
  enabled = true;
  ratio_limit = 20;
  saturation_ratio = 950;
  saturation_percent = 95000;
  latency_ceiling_ms = 500000;
}

metric_healthy_iff_example :
    (metric_healthy floats (λ s. s) sit query true policy 3000 ≡ true)
    ↔ All (Recovered floats (λ s. s) sit query true policy 3000) (firing sit.member_events)
metric_healthy_iff_example = metric_healthy_iff floats (λ s. s) sit query true policy 3000

-- Two crashes, then a return.
abbrev rounds : List Round
rounds =
    record { stopped = false; returned = false; stopped_waiting = false }
    ∷ record { stopped = false; returned = false; stopped_waiting = false }
    ∷ record { stopped = false; returned = true; stopped_waiting = false }
    ∷ []

supervise-backoffs_example :
    ((supervise 30 1 rounds).waits ≡ backoffs 30 1 (length (supervise 30 1 rounds).waits))
    × ((supervise 30 1 rounds).is_over ≡ false ↔ all goes_on rounds ≡ true)
    × (all goes_on rounds ≡ true → (supervise 30 1 rounds).runs ≡ 3)
supervise-backoffs_example = supervise-backoffs 30 1 rounds (omega arith)
