-- ===== src/Framework/Fixtures/Workload.antt =====
-- pkg/framework/workload.go
use openshift_online_rosa_e.Base.{
  String, Bool, true, not, any, List, [], ◌∷◌, none, if◌then◌else◌, Result, ok, err,
}
use openshift_online_rosa_e.Base.Io.{Io, within, pure, ◌>>◌}
use openshift_online_rosa_e.Verifiers.Conditions.{ApiError, Condition, is_condition}
use openshift_online_rosa_e.Framework.Fixtures.{
  Deployment, Service, PodSpec, KubeApi, FixtureError, creating_namespace, creating_deployment,
  creating_service, waiting_for_deployment,
}

abbrev pub httpd_pod : PodSpec
httpd_pod = record {
  security = none;
  containers =
      record {
        name = "httpd";
        image = "registry.access.redhat.com/ubi9/httpd-24:latest";
        command = [];
        args = [];
        ports = record { container_port = 8080; protocol = "TCP" } ∷ [];
        volume_mounts = [];
        security = none;
      }
      ∷ [];
  volumes = [];
}

abbrev pub test_nginx : String → Deployment
test_nginx namespace = record {
  name = "test-nginx";
  namespace = namespace;
  replicas = 1;
  match_labels = ("app", "test-nginx") ∷ [];
  template_labels = ("app", "test-nginx") ∷ [];
  template = httpd_pod;
}

abbrev pub test_nginx_svc : String → Service
test_nginx_svc namespace = record {
  name = "test-nginx-svc";
  namespace = namespace;
  service_type = "ClusterIP";
  selector = ("app", "test-nginx") ∷ [];
  ports = record { port = 80; target_port = 8080; protocol = "TCP" } ∷ [];
}

module _ {World : Type 0} (api : KubeApi World) where
  -- A namespace that is there already is as good as one that is created.
  abbrev pub or_exists :
      String → Result ApiError (Unit {0}) × World → Result FixtureError (Unit {0}) × World
  or_exists namespace (ok tt, w) = (ok tt, w)
  or_exists namespace (err e, w) =
      if not (api.is_already_exists e)
      then (err (creating_namespace namespace e), w)
      else (ok tt, w)

  abbrev pub ensure_namespace : String → Io FixtureError World (Unit {0})
  ensure_namespace namespace w =
      or_exists namespace (api.create_namespace (record { name = namespace; labels = [] }) w)

  abbrev pub judge_conditions :
      Result ApiError (List Condition) × World → Result ApiError Bool × World
  judge_conditions (err e, w) = (err e, w)
  judge_conditions (ok conditions, w) = (ok (any (is_condition "Available" "True") conditions), w)

  -- The condition of the poll
  unfoldable pub is_available : String → World → Result ApiError Bool × World
  is_available namespace w = judge_conditions (api.get_deployment namespace "test-nginx" w)

  abbrev pub poll_available : String → Io ApiError World (Unit {0})
  poll_available namespace = api.poll_until_context_timeout 5 300 true (is_available namespace)

  -- `cleanup`, which drops the error
  abbrev pub remove_workload : String → World → World
  remove_workload namespace w = (api.delete_namespace namespace w).1

  -- `DeployTestWorkload`: on success the cleanup function is returned.
  unfoldable pub deploy_test_workload : String → Io FixtureError World (World → World)
  unfolding is_available
  deploy_test_workload namespace =
      ensure_namespace namespace
      >> within creating_deployment (api.create_deployment (test_nginx namespace))
      >> within creating_service (api.create_service (test_nginx_svc namespace))
      >> within waiting_for_deployment (poll_available namespace)
      >> pure (remove_workload namespace)
