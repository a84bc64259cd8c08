-- ===== src/Framework/Fixtures.antt =====
-- pkg/framework/namespace.go, workload.go and storage.go: the objects that the tests create, and the API
-- server. The Kubernetes client libraries are parameters.
pub mod Namespaces
pub mod Workload
pub mod Storage
pub mod Created
use openshift_online_rosa_e.Base.{ℕ, String, Bool, ◌||◌, List, Result, Option}
use openshift_online_rosa_e.Verifiers.Conditions.{ApiError, Condition}

pub record Namespace : Type 0 where
  pub name : String
  pub labels : List (String × String)

pub record ContainerPort : Type 0 where
  pub container_port : ℕ
  pub protocol : String

-- What a container's security context says, where it has one
pub record ContainerSecurity : Type 0 where
  pub allow_privilege_escalation : Bool
  pub drop : List String

pub record Container : Type 0 where
  pub name : String
  pub image : String
  pub command : List String
  pub args : List String
  pub ports : List ContainerPort
  -- Names and mount paths
  pub volume_mounts : List (String × String)
  pub security : Option ContainerSecurity

pub record PodSecurity : Type 0 where
  pub run_as_non_root : Bool
  pub run_as_user : ℕ
  pub fs_group : ℕ
  pub seccomp_profile : String

pub record PodSpec : Type 0 where
  pub security : Option PodSecurity
  pub containers : List Container
  -- Names, and names of claims
  pub volumes : List (String × String)

pub record Deployment : Type 0 where
  pub name : String
  pub namespace : String
  pub replicas : ℕ
  pub match_labels : List (String × String)
  pub template_labels : List (String × String)
  pub template : PodSpec

pub record ServicePort : Type 0 where
  pub port : ℕ
  pub target_port : ℕ
  pub protocol : String

pub record Service : Type 0 where
  pub name : String
  pub namespace : String
  pub service_type : String
  pub selector : List (String × String)
  pub ports : List ServicePort

pub record Claim : Type 0 where
  pub name : String
  pub namespace : String
  pub access_modes : List String
  pub storage : String
  pub storage_class : Option String

pub record TestPod : Type 0 where
  pub name : String
  pub namespace : String
  pub spec : PodSpec

pub data FixtureError : Type 0 where
  creating_namespace : String → ApiError → FixtureError
  deleting_namespace : String → ApiError → FixtureError
  creating_deployment creating_service waiting_for_deployment creating_pvc creating_pod :
      ApiError → FixtureError

-- The API server, the tests of k8s.io/apimachinery on its errors, and the polling of that library:
-- the interval and the timeout in seconds, whether the first round comes at once, and the condition
pub record KubeApi (World : Type 0) : Type 0 where
  pub create_namespace : Namespace → World → Result ApiError (Unit {0}) × World
  pub delete_namespace : String → World → Result ApiError (Unit {0}) × World
  pub create_deployment : Deployment → World → Result ApiError (Unit {0}) × World
  pub create_service : Service → World → Result ApiError (Unit {0}) × World
  pub create_claim : Claim → World → Result ApiError (Unit {0}) × World
  pub create_pod : TestPod → World → Result ApiError (Unit {0}) × World
  -- The conditions of a deployment, by namespace and name
  pub get_deployment : String → String → World → Result ApiError (List Condition) × World
  pub is_already_exists : ApiError → Bool
  pub is_not_found : ApiError → Bool
  pub is_forbidden : ApiError → Bool
  pub is_invalid : ApiError → Bool
  pub is_method_not_supported : ApiError → Bool
  pub is_not_acceptable : ApiError → Bool
  pub is_resource_expired : ApiError → Bool
  pub is_unauthorized : ApiError → Bool
  pub poll_until_context_timeout :
      ℕ
      → ℕ
      → Bool
      → (World → Result ApiError Bool × World)
      → World
      → Result ApiError (Unit {0}) × World

-- `isNonTransientError`
unfoldable pub is_non_transient_error : {World : Type 0} → KubeApi World → ApiError → Bool
is_non_transient_error api e =
    api.is_forbidden e
    || (api.is_invalid e
        || (api.is_method_not_supported e
            || (api.is_not_acceptable e || (api.is_resource_expired e || api.is_unauthorized e))))
