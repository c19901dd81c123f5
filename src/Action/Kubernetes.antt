-- ===== src/Action/Kubernetes.antt =====
-- services/action/adapters/k8s_remediator.py: the steps of a plan as calls of the Kubernetes API.
-- The API is a parameter, a record of calls on the state of the cluster that may raise; a call that
-- raises may have changed the cluster. Log messages are left out.
pub mod Scaling
pub mod Restoring
use intelliops.Base.{
  zero, ℤ, pos, ◌+ℤ◌, leb_ℤ, Bool, true, false, ◌&&◌, String, ◌<>◌, ◌==◌, show_ℤ, Option, none,
  some, List, [], ◌∷◌, any, if◌then◌else◌,
}
use intelliops.Base.Dict.{Dict, lookup, insert}
use intelliops.Contracts.{
  RemediationPlan, RemediationStep, RemediationTarget, StepAction, Probe, liveness,
}
use intelliops.Action.Effects.{Result, ok, raised}

-- A deployment, as far as it is read.
pub record Deployment : Type 0 where
  pub replicas : Option ℤ
  pub match_labels : Option (Dict String)

pub record Owner : Type 0 where
  pub kind : String
  pub name : String

pub record Metadata : Type 0 where
  pub owner_references : Option (List Owner)
  pub annotations : Option (Dict String)

-- `Template` is the type of pod templates.
pub record ReplicaSet (Template : Type 0) : Type 0 where
  pub metadata : Option Metadata
  pub template : Template

-- The bodies that patch a deployment.
pub data Body (Template : Type 0) : Type 0 where
  annotate : (key stamp : String) → Body Template
  limit : (container : Option String) → (limits : Dict String) → Body Template
  probe : (container : Option String) → (key : String) → (fields : Dict ℤ) → Body Template
  with_template : Template → Body Template

pub record Api (C Template : Type 0) : Type 0 where
  -- the class of API errors, and the client: both may have to be loaded
  pub exc_type : C → Result (Unit {0}) × C
  pub client : C → Result (Unit {0}) × C
  pub read_deployment : (deployment ns : String) → C → Result Deployment × C
  pub patch_deployment : (deployment ns : String) → Body Template → C → Result (Unit {0}) × C
  pub patch_scale : (deployment ns : String) → ℤ → C → Result (Unit {0}) × C
  pub list_replica_sets : (ns label_selector : String) → C → Result (List (ReplicaSet Template)) × C
  -- the time of now, as text
  pub stamp : C → String

-- `_pre_scale`, keyed by the namespace and the deployment
abbrev pub Recorded : Type 0
Recorded = List ((String × String) × ℤ)

abbrev pub same_key : String → String → String × String → Bool
same_key ns deployment (a, b) = a == ns && b == deployment

unfoldable pub recorded : String → String → Recorded → Option ℤ
recorded ns deployment [] = none
recorded ns deployment ((key, n) ∷ r) =
    let rest = recorded ns deployment r in if same_key ns deployment key then some n else rest

-- `_pre_scale.pop(key, None)`
unfoldable pub forget : String → String → Recorded → Recorded
forget ns deployment [] = []
forget ns deployment ((key, n) ∷ r) =
    let rest = forget ns deployment r in
    if same_key ns deployment key then rest else (key, n) ∷ rest

-- `_pre_scale.setdefault(key, n)`
unfoldable pub record_once : String → String → ℤ → Recorded → Recorded
record_once ns deployment n r = elim (recorded ns deployment r) [
  | none ↦ ((ns, deployment), n) ∷ r
  | some _ ↦ r
]

abbrev pub min_replicas : ℤ
min_replicas = pos 1

abbrev pub max_replicas : ℤ
max_replicas = pos 10

abbrev pub min : ℤ → ℤ → ℤ
min a b = if leb_ℤ a b then a else b

abbrev pub max : ℤ → ℤ → ℤ
max a b = if leb_ℤ a b then b else a

abbrev pub clamp : ℤ → ℤ
clamp n = max min_replicas (min max_replicas n)

-- `n or default`, of a count that may be None
abbrev pub or_else : Option ℤ → ℤ → ℤ
or_else none default = default
or_else (some (pos zero)) default = default
or_else (some n) default = n

abbrev pub put_some : {V : Type 0} → String → Option V → Dict V → Dict V
put_some key none d = d
put_some key (some v) d = insert key v d

abbrev pub limits_of : RemediationStep → Dict String
limits_of step = put_some "memory" step.mem_limit (put_some "cpu" step.cpu_limit [])

abbrev pub probe_key : Option Probe → String
probe_key (some liveness) = "livenessProbe"
probe_key _ = "readinessProbe"

abbrev pub probe_fields : RemediationStep → Dict ℤ
probe_fields step = put_some "failureThreshold" step.failure_threshold (
    put_some "timeoutSeconds" step.timeout_seconds (
      put_some "periodSeconds" step.period_seconds
        (put_some "initialDelaySeconds" step.initial_delay_seconds [])))

-- `",".join(f"{k}={v}" for k, v in labels.items())`
abbrev pub selector_of : Dict String → String
selector_of [] = ""
selector_of ((k, v) ∷ []) = k <> "=" <> v
selector_of ((k, v) ∷ d) = k <> "=" <> v <> "," <> selector_of d

-- `x or []`
abbrev pub or_empty : {A : Type 0} → Option (List A) → List A
or_empty none = []
or_empty (some xs) = xs

abbrev pub metadata_owners : Option Metadata → List Owner
metadata_owners none = []
metadata_owners (some m) = or_empty m.owner_references

abbrev pub metadata_annotations : Option Metadata → Dict String
metadata_annotations none = []
metadata_annotations (some m) = or_empty m.annotations

abbrev pub is_text : String → Option String → Bool
is_text s none = false
is_text s (some t) = t == s

-- `str(step.revision)`
abbrev pub show_revision : Option ℤ → String
show_revision none = "None"
show_revision (some n) = show_ℤ n

-- The template of the revision, among the replica sets that the deployment owns.
unfoldable pub find_template :
    {T : Type 0} → (deployment revision : String) → List (ReplicaSet T) → Option T
find_template deployment revision [] = none
find_template deployment revision (rs ∷ more) =
    let rest = find_template deployment revision more in
    if any (λ (o : Owner). o.kind == "Deployment" && o.name == deployment)
        (metadata_owners rs.metadata)
      && is_text revision
          (lookup "deployment.kubernetes.io/revision" (metadata_annotations rs.metadata))
    then some rs.template
    else rest

module _ {C T : Type 0} (ns_default : String) (api : Api C T) where
  pub record State : Type 0 where
    pub pre_scale : Recorded
    pub cluster : C

  abbrev pub Run : Type 0 → Type 0
  Run A = State → Result A × State

  -- What follows a run, unless it raises.
  unfoldable pub and_then : {A B : Type 0} → Run A → (A → Run B) → Run B
  and_then m rest s = let (r, s') = m s in elim r [ ok a ↦ rest a s' | raised ↦ (raised, s') ]

  unfoldable pub call : {A : Type 0} → (C → Result A × C) → Run A
  call f s = let (r, c) = f s.cluster in (r, record s { cluster = c })

  abbrev pub done : Run (Unit {0})
  done s = (ok tt, s)

  module _ (ns deployment : String) where
    abbrev pub patch : Body T → Run (Unit {0})
    patch body = call (api.patch_deployment deployment ns body)

    abbrev pub patch_replicas : ℤ → Run (Unit {0})
    patch_replicas desired = call (api.patch_scale deployment ns desired)

    -- A scale by the step's delta; going forward, the count before it is recorded.
    abbrev pub scale_by : RemediationStep → (rolling_back : Bool) → Run (Unit {0})
    scale_by step rolling_back = and_then (call (api.read_deployment deployment ns)) (λ d s.
        let current = or_else d.replicas (pos 1) in
        patch_replicas (clamp (current +ℤ or_else step.replicas (pos 0))) (
          if rolling_back
          then s
          else record s { pre_scale = record_once ns deployment current s.pre_scale }))

    unfoldable pub scale_step : RemediationStep → (rolling_back : Bool) → Run (Unit {0})
    scale_step step false s = scale_by step false s
    scale_step step true s = elim (recorded ns deployment s.pre_scale) [
      | some desired ↦ patch_replicas desired s
      | none ↦ scale_by step true s
    ]

    abbrev pub patch_template : Option T → Run (Unit {0})
    patch_template none s = (raised, s)
    patch_template (some template) s = patch (with_template template) s

    unfoldable pub revision_step : RemediationStep → Run (Unit {0})
    revision_step step = and_then (call (api.read_deployment deployment ns)) (λ d.
        and_then (call (api.list_replica_sets ns (selector_of (or_empty d.match_labels))))
          (λ sets. patch_template (find_template deployment (show_revision step.revision) sets)))

    unfoldable pub dispatch_action :
        StepAction → RemediationStep → (rolling_back : Bool) → Run (Unit {0})
    dispatch_action StepAction.wait step rolling_back s = done s
    dispatch_action StepAction.restart step rolling_back s =
        patch (annotate "kubectl.kubernetes.io/restartedAt" (api.stamp s.cluster)) s
    dispatch_action StepAction.scale step rolling_back s = scale_step step rolling_back s
    dispatch_action StepAction.rollback_deploy step rolling_back s =
        patch (annotate "intelliops.io/rolledBackAt" (api.stamp s.cluster)) s
    dispatch_action StepAction.patch_resource_limits step rolling_back s =
        patch (limit step.container (limits_of step)) s
    dispatch_action StepAction.patch_probe step rolling_back s =
        patch (probe step.container (probe_key step.probe) (probe_fields step)) s
    dispatch_action StepAction.rollback_to_revision step rolling_back s = revision_step step s

    -- `_dispatch`
    abbrev pub dispatch : RemediationStep → (rolling_back : Bool) → Run (Unit {0})
    dispatch step = dispatch_action step.action step

    unfoldable pub dispatch_all : List RemediationStep → (rolling_back : Bool) → Run (Unit {0})
    dispatch_all [] rolling_back = done
    dispatch_all (step ∷ steps) rolling_back =
        and_then (dispatch step rolling_back) (λ _. dispatch_all steps rolling_back)

  -- `try: ...; return True`, `except Exception: return False`
  unfoldable pub caught : Run (Unit {0}) → Run Bool
  caught m s = let (r, s') = m s in elim r [ ok _ ↦ (ok true, s') | raised ↦ (ok false, s') ]

  abbrev pub namespace_of : RemediationTarget → String
  namespace_of target = if target.namespace == "" then ns_default else target.namespace

  -- `_run`: an `except` clause whose class could not be loaded raises in its turn.
  unfoldable pub run : RemediationTarget → List RemediationStep → (rolling_back : Bool) → Run Bool
  run target steps rolling_back = and_then (call api.exc_type) (λ _. caught (
      and_then (call api.client)
        (λ _. dispatch_all (namespace_of target) target.deployment steps rolling_back)))

  abbrev pub forget_target : RemediationTarget → State → State
  forget_target target s = record s {
    pre_scale = forget (namespace_of target) target.deployment s.pre_scale;
  }

  unfoldable pub execute : RemediationPlan → Run Bool
  execute plan s = run plan.target plan.steps false (forget_target plan.target s)

  unfoldable pub rollback : RemediationPlan → Run Bool
  rollback plan =
      and_then (run plan.target plan.rollback_steps true)
        (λ done_it s. (ok done_it, forget_target plan.target s))
