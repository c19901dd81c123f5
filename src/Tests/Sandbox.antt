-- ===== src/Tests/Sandbox.antt =====
-- The rehearsal of a plan on a cluster that answers every call.
use intelliops.Base.{◌≡◌, ◌∷◌, refl, true, none, some, [], All}
use intelliops.Contracts.{RemediationPlan, StepAction}
use intelliops.Action.Effects.{ok, raised}
use intelliops.Correlation.Correlator.{sorted_set}
use intelliops.Action.Sandbox.{
  referenced_config_map_names, Cluster, Deployment, Metadata, rehearse, clone, check_ready,
  apply_fix, check_health, clone_service, clone_config_maps, seed_revision_history, seed_all, ◌>>=◌,
  ◌>>◌, pure, call, asked, best_effort, or_default,
}
use intelliops.Action.Sandbox.Teardown.{
  TornDown, IsConfined, PassedAfter, rehearse-TornDown, rehearse-PassedAfter,
}
use intelliops.Tests.Data.{step}

abbrev metadata : Metadata
metadata = record {
  namespace = "default";
  resource_version = some "7";
  uid = some "u1";
  creation_timestamp = none;
  owner_references = none;
  managed_fields = none;
  self_link = none;
  annotations = none;
  kept = "{}";
}

abbrev deployment : Deployment
deployment = record {
  metadata = metadata;
  match_labels = some (("app", "checkout") ∷ []);
  volumes = [];
  containers = [];
  kept = "{}";
  status = some "{}";
}

abbrev cluster : Cluster
cluster = record {
  load = λ l. ok tt;
  deployment = λ l ns name. ok deployment;
  create_namespace = λ l. ok tt;
  create_deployment = λ l. ok tt;
  replica_sets = λ l. ok [];
  create_replica_set = λ l. ok tt;
  service = λ l. raised;
  create_service = λ l. ok tt;
  config_map = λ l. raised;
  create_config_map = λ l. ok tt;
  ready = λ l. ok true;
  apply = λ l. ok true;
  healthy = λ l. ok true;
  error_name = λ l. "ApiException";
}

abbrev plan : RemediationPlan
plan = record {
  target = record { namespace = "default"; deployment = "checkout" };
  steps = step StepAction.restart ∷ [];
  rollback_steps = [];
}

rehearse-TornDown_example :
    let l = (rehearse cluster "default" "box-1" "checkout" plan).1 in
    TornDown cluster "default" "box-1" "checkout" plan l
    × All (IsConfined cluster "default" "box-1" "checkout" plan) l
rehearse-TornDown_example = rehearse-TornDown cluster "default" "box-1" "checkout" plan

rehearse_passes : (rehearse cluster "default" "box-1" "checkout" plan).0.passed ≡ true
unfolding rehearse clone check_ready apply_fix check_health clone_service clone_config_maps
    seed_revision_history seed_all ◌>>=◌ ◌>>◌ pure call asked best_effort or_default
    referenced_config_map_names sorted_set
rehearse_passes = refl

rehearse-PassedAfter_example :
    PassedAfter cluster "default" "box-1" "checkout" plan
      (rehearse cluster "default" "box-1" "checkout" plan).1
rehearse-PassedAfter_example =
    rehearse-PassedAfter cluster "default" "box-1" "checkout" plan rehearse_passes
