-- ===== src/Action/Sandbox.antt =====
-- services/action/adapters/sandbox.py: the rehearsal of a plan on a clone in a namespace of its own.
-- The Kubernetes API, and the health check and the remediator as they are called here, are a
-- parameter: what each call answers, given all calls before it. The log holds the calls, the latest
-- first. Log messages are left out.
mod Objects
pub mod Teardown
unfoldable pub use Objects.*
use intelliops.Base.{
  if◌then◌else◌, ◌∷◌, ◌<>◌, ◌==◌, ◌&&◌, String, Bool, true, false, Option, none, some, List, [],
  any,
}
use intelliops.Contracts.{PreflightResult, RemediationPlan, RemediationTarget}
use intelliops.Action.Effects.{Result, ok, raised}
use intelliops.Action.Kubernetes.{selector_of, or_empty, Owner}

pub data Call : Type 0 where
  loaded : Call
  read_deployment : (ns name : String) → Call
  created_namespace : String → Call
  created_deployment : (ns : String) → Deployment → Call
  listed_replica_sets : (ns : String) → (selector : Option String) → Call
  created_replica_set : (ns : String) → ReplicaSet → Call
  read_service : (ns name : String) → Call
  created_service : (ns : String) → Service → Call
  read_config_map : (ns name : String) → Call
  created_config_map : (ns : String) → ConfigMap → Call
  -- the check before the fix, the fix, and the check after it, with what they answered
  checked_ready : RemediationTarget → Bool → Call
  applied : RemediationPlan → Bool → Call
  checked_health : RemediationTarget → Bool → Call
  -- one of these three that raised
  gave_up : Call
  deleted_namespace : String → Call

abbrev pub Log : Type 0
Log = List Call

pub record Cluster : Type 0 where
  pub load : Log → Result (Unit {0})
  pub deployment : Log → (ns name : String) → Result Deployment
  pub create_namespace : Log → Result (Unit {0})
  pub create_deployment : Log → Result (Unit {0})
  pub replica_sets : Log → Result (List ReplicaSet)
  pub create_replica_set : Log → Result (Unit {0})
  pub service : Log → Result Service
  pub create_service : Log → Result (Unit {0})
  pub config_map : Log → Result ConfigMap
  pub create_config_map : Log → Result (Unit {0})
  pub ready : Log → Result Bool
  pub apply : Log → Result Bool
  pub healthy : Log → Result Bool
  -- the name of the exception that ended the rehearsal
  pub error_name : Log → String

abbrev pub Run : Type 0 → Type 0
Run A = Log → Result A × Log

infixl 5 ◌>>=◌ ◌>>◌
unfoldable pub ◌>>=◌ : {A B : Type 0} → Run A → (A → Run B) → Run B
◌>>=◌ m f l = let (r, l') = m l in elim r [ ok a ↦ f a l' | raised ↦ (raised, l') ]

unfoldable pub ◌>>◌ : {B : Type 0} → Run (Unit {0}) → Run B → Run B
unfolding ◌>>=◌
m >> k = m >>= λ _. k

unfoldable pub pure : {A : Type 0} → A → Run A
pure a l = (ok a, l)

-- A call is logged when it is made, also if it raises.
unfoldable pub call : {A : Type 0} → Call → (Log → Result A) → Run A
call c answer l = (answer l, c ∷ l)

-- The three calls of the repository's own code are logged with their answer.
unfoldable pub asked : (Bool → Call) → (Log → Result Bool) → Run Bool
asked c answer l = elim (answer l) [ ok b ↦ (ok b, c b ∷ l) | raised ↦ (raised, gave_up ∷ l) ]

-- `try: m except Exception: pass`
unfoldable pub best_effort : Run (Unit {0}) → Run (Unit {0})
best_effort m l = (ok tt, (m l).1)

-- `try: return m except Exception: return default`
unfoldable pub or_default : {A : Type 0} → A → Run A → Run A
or_default a m l = let (r, l') = m l in elim r [ ok b ↦ (ok b, l') | raised ↦ (ok a, l') ]

module _ (k : Cluster) (prod sandbox_ns name : String) where
  abbrev clone_uid_of : Deployment → String
  clone_uid_of d = elim (d.metadata.uid) [ none ↦ "" | some u ↦ u ]

  -- A replica set is copied if the deployment owns it; one that cannot be is skipped.
  unfoldable pub seed_one : (clone_uid : String) → ReplicaSet → Run (Unit {0})
  seed_one clone_uid rs =
      if any (λ (o : Owner). o.kind == "Deployment" && o.name == name)
        (or_empty rs.metadata.owner_references)
      then (let body = strip_replica_set sandbox_ns clone_uid name rs in
          call (created_replica_set sandbox_ns body) k.create_replica_set)
      else pure tt

  unfoldable pub seed_all : (clone_uid : String) → List ReplicaSet → Run (Unit {0})
  seed_all clone_uid [] = pure tt
  seed_all clone_uid (rs ∷ more) = best_effort (seed_one clone_uid rs) >> seed_all clone_uid more

  abbrev pub label_selector : Deployment → Option String
  label_selector d =
      let labels = or_empty d.match_labels in
      if selector_of labels == "" then none else some (selector_of labels)

  -- `_seed_revision_history_best_effort`
  unfoldable pub seed_revision_history : (clone_uid : String) → Deployment → Run (Unit {0})
  seed_revision_history clone_uid source = best_effort (
      call (listed_replica_sets prod (label_selector source)) k.replica_sets >>= seed_all clone_uid)

  -- `_clone_service_best_effort`
  unfoldable pub clone_service : Run (Unit {0})
  clone_service = best_effort (
      call (read_service prod name) k.service >>= λ svc.
      call (created_service sandbox_ns (strip_service sandbox_ns svc)) k.create_service)

  -- `_clone_config_maps_best_effort`
  unfoldable pub clone_config_maps : List String → Run (Unit {0})
  clone_config_maps [] = pure tt
  clone_config_maps (cm ∷ more) =
      best_effort (
        call (read_config_map prod cm) k.config_map >>= λ body.
        call (created_config_map sandbox_ns (strip_config_map sandbox_ns body)) k.create_config_map)
      >> clone_config_maps more

  abbrev pub verdict : Bool → String → PreflightResult
  verdict passed detail = record {
    passed = passed;
    detail = detail;
    mode = "k8s";
    sandbox_namespace = some sandbox_ns;
  }

  module _ (plan : RemediationPlan) where
    abbrev pub clone_target : RemediationTarget
    clone_target = record { namespace = sandbox_ns; deployment = name }

    abbrev pub clone_plan : RemediationPlan
    clone_plan = record plan { target = clone_target }

    unfoldable pub check_health : Run PreflightResult
    check_health = asked (checked_health clone_target) k.healthy >>= λ healthy. pure (
        if healthy
        then verdict true ("sandbox: clone " <> name <> " healthy after fix")
        else verdict false ("sandbox: clone " <> name <> " did not recover after fix"))

    unfoldable pub apply_fix : Run PreflightResult
    apply_fix = asked (applied clone_plan) k.apply >>= λ done.
        if done
        then check_health
        else pure (verdict false ("sandbox: clone " <> name <> " remediation apply failed"))

    unfoldable pub check_ready : Run PreflightResult
    check_ready = asked (checked_ready clone_target) k.ready >>= λ ready.
        if ready
        then apply_fix
        else pure (verdict false ("sandbox: clone " <> name <> " never became ready before fix"))

    -- The clone and all that goes with it.
    unfoldable pub clone : Run (Unit {0})
    clone = do
      source ← call (read_deployment prod name) (λ l. k.deployment l prod name)
      call (created_namespace sandbox_ns) k.create_namespace
      call (created_deployment sandbox_ns (strip_deployment sandbox_ns source)) k.create_deployment
      uid ← or_default "" (
          call (read_deployment sandbox_ns name) (λ l. k.deployment l sandbox_ns name) >>= λ d.
          pure (clone_uid_of d))
      seed_revision_history uid source
      clone_service
      clone_config_maps (referenced_config_map_names source)

    -- `finally`: the namespace is deleted, whether the deletion raises or not.
    abbrev pub torn_down : Result PreflightResult × Log → PreflightResult × Log
    torn_down (ok p, l) = (p, deleted_namespace sandbox_ns ∷ l)
    torn_down (raised, l) =
        (verdict false ("sandbox error: " <> k.error_name l), deleted_namespace sandbox_ns ∷ l)

    unfoldable pub rehearse : PreflightResult × Log
    rehearse = elim (k.load []) [
      | raised ↦ (verdict false ("sandbox error: " <> k.error_name (loaded ∷ [])), loaded ∷ [])
      | ok _ ↦ torn_down ((clone >> check_ready) (loaded ∷ []))
    ]

-- `NullSandbox.rehearse`
unfoldable pub null_rehearse : PreflightResult
null_rehearse = record {
  passed = true;
  detail = "not rehearsed (sandbox off)";
  mode = "off";
  sandbox_namespace = none;
}
