-- ===== src/Action/Sandbox/Objects.antt =====
-- The objects that are cloned, as far as they are read or stripped, and the stripping. `kept` is what
-- is copied as it is.
use intelliops.Base.{if◌then◌else◌, ◌∷◌, ◌++◌, ◌==◌, ℕ, String, Option, none, some, List, [], map}
use intelliops.Base.Dict.{Dict, erase}
use intelliops.Action.Kubernetes.{Owner}
use intelliops.Correlation.Correlator.{sorted_set}

pub record Metadata : Type 0 where
  pub namespace : String
  pub resource_version : Option String
  pub uid : Option String
  pub creation_timestamp : Option String
  pub owner_references : Option (List Owner)
  pub managed_fields : Option String
  pub self_link : Option String
  pub annotations : Option (Dict String)
  pub kept : String

-- A container, by the config maps that it names: `envFrom` and `env`.
pub record Container : Type 0 where
  pub env_from : List (Option String)
  pub env : List (Option String)

pub record Deployment : Type 0 where
  pub metadata : Metadata
  pub match_labels : Option (Dict String)
  -- the config maps that the volumes name
  pub volumes : List (Option String)
  pub containers : List Container
  pub kept : String
  pub status : Option String

pub record ReplicaSet : Type 0 where
  pub metadata : Metadata
  pub kept : String
  pub status : Option String

pub record Port : Type 0 where
  pub node_port : Option ℕ
  pub kept : String

pub record Service : Type 0 where
  pub metadata : Metadata
  pub cluster_ip : Option String
  pub cluster_ips : Option (List String)
  pub ports : Option (List Port)
  pub kept : String
  pub status : Option String

pub record ConfigMap : Type 0 where
  pub metadata : Metadata
  pub kept : String

-- What every object loses.
abbrev strip_metadata : String → Metadata → Metadata
strip_metadata ns m = record m {
  namespace = ns;
  resource_version = none;
  uid = none;
  creation_timestamp = none;
  owner_references = none;
  managed_fields = none;
  self_link = none;
}

abbrev strip_annotations : Option (Dict String) → Option (Dict String)
strip_annotations none = none
strip_annotations (some d) = some (
    erase "kubectl.kubernetes.io/last-applied-configuration"
      (erase "deployment.kubernetes.io/revision" d))

-- `_strip_deployment`
unfoldable pub strip_deployment : String → Deployment → Deployment
strip_deployment ns d =
    let m = strip_metadata ns d.metadata in
    record d {
      metadata = record m { annotations = strip_annotations d.metadata.annotations };
      status = none;
    }

-- `_strip_service`
unfoldable pub strip_service : String → Service → Service
strip_service ns s = record s {
  metadata = strip_metadata ns s.metadata;
  cluster_ip = none;
  cluster_ips = none;
  ports = elim (s.ports) [
    | none ↦ none
    | some ps ↦ some (map (λ (p : Port). record p { node_port = none }) ps)
  ];
  status = none;
}

-- `_strip_config_map`
unfoldable pub strip_config_map : String → ConfigMap → ConfigMap
strip_config_map ns c = record c { metadata = strip_metadata ns c.metadata }

-- `_strip_replica_set`: it is owned by the clone.
unfoldable pub strip_replica_set :
    String → (clone_uid clone_name : String) → ReplicaSet → ReplicaSet
strip_replica_set ns clone_uid clone_name rs =
    let m = strip_metadata ns rs.metadata in
    record rs {
      metadata = record m {
        owner_references = some (record { kind = "Deployment"; name = clone_name } ∷ []);
      };
      status = none;
    }

-- The names that are there.
abbrev names_in : List (Option String) → List String
names_in [] = []
names_in (none ∷ os) = names_in os
names_in (some s ∷ os) = if s == "" then names_in os else s ∷ names_in os

unfoldable container_names : List Container → List String
container_names [] = []
container_names (c ∷ cs) = names_in c.env_from ++ (names_in c.env ++ container_names cs)

-- `_referenced_config_map_names`
unfoldable pub referenced_config_map_names : Deployment → List String
unfolding container_names
referenced_config_map_names d = sorted_set (names_in d.volumes ++ container_names d.containers)
