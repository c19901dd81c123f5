-- ===== src/Tests/Kubernetes.antt =====
-- The remediator at a concrete cluster: one deployment, of which the state is its count of replicas.
use intelliops.Base.{◌*◌, ◌+◌, ltb, inr, ℤ, pos, negsuc, none, some, [], ◌∷◌, ◌≡◌, refl, arith}
use intelliops.Contracts.{RemediationPlan, RemediationStep, RemediationTarget, StepAction}
use intelliops.Action.Effects.{ok}
use intelliops.Action.Kubernetes.{
  and_then, call, caught, dispatch_all, dispatch_action, scale_step, recorded, record_once, forget,
  Api, State, execute, rollback, run,
}
use intelliops.Action.Kubernetes.Scaling.{Documented, Bounded, execute-Bounded}
use intelliops.Action.Kubernetes.Restoring.{rollback-execute}
use intelliops.Action.Health.{World, check}
use intelliops.Action.Health.Polling.{IsVerdict, check-IsVerdict}
use intelliops.Tests.Data.{step}

abbrev api : Api ℤ (Unit {0})
api = record {
  exc_type = λ c. (ok tt, c);
  client = λ c. (ok tt, c);
  read_deployment = λ deployment ns c. (ok (record { replicas = some c; match_labels = none }), c);
  patch_deployment = λ deployment ns body c. (ok tt, c);
  patch_scale = λ deployment ns n c. (ok tt, n);
  list_replica_sets = λ ns selector c. (ok [], c);
  stamp = λ c. "2026-07-01T00:00:00+00:00";
}

api_laws : Documented api "checkout" "default" some
api_laws = record {
  exc_type_same = λ c. refl;
  client_same = λ c. refl;
  read_same = λ c. refl;
  read_count = λ c d h. grind arith;
  patch_same = λ body c. refl;
  list_same = λ selector c. refl;
  scaled = λ n c u h. refl;
  scale_failed = λ n c h. inr refl;
}

abbrev target : RemediationTarget
target = record { namespace = ""; deployment = "checkout" }

abbrev by : ℤ → RemediationStep
by n = record (step StepAction.scale) { replicas = some n }

abbrev plan : RemediationPlan
plan = record {
  target = target;
  steps = by (pos 2) ∷ step StepAction.restart ∷ [];
  rollback_steps = by (negsuc 1) ∷ [];
}

-- Nine replicas: two more are clamped to ten.
abbrev nine : State "default" api
nine = record { pre_scale = []; cluster = pos 9 }

execute-Bounded_example :
    Bounded "default" api some (some (pos 9)) (execute "default" api plan nine).1
execute-Bounded_example =
    execute-Bounded "default" api target some api_laws plan.steps plan.rollback_steps nine

rollback-execute_example :
    some
      (rollback "default" api plan (record {
        pre_scale = (execute "default" api plan nine).1.pre_scale;
        cluster = pos 4;
      })).1.cluster
    ≡ some (pos 9)
unfolding execute rollback run and_then call caught dispatch_all dispatch_action scale_step recorded
    record_once forget
rollback-execute_example =
    rollback-execute "default" api plan some (pos 9) nine (λ _. pos 4) api_laws refl
      (λ h. ground arith) refl refl refl refl

-- The pods are ready from the first poll on, the metrics have recovered at the second.
abbrev recovering : World
recovering = record {
  status = λ i. ok (record {
    generation = some 2;
    observed_generation = some 2;
    ready_replicas = some 3;
    replicas = some 3;
    updated_replicas = some 3;
  });
  metric_healthy = λ i. ok (ltb 0 i);
  now = λ i. 10 + i * 2;
}

check-IsVerdict_example : IsVerdict recovering 40 0 (check recovering 10 30)
check-IsVerdict_example = check-IsVerdict recovering 10 30 2 (omega arith) (λ i. omega arith)
