-- ===== src/Framework/Fixtures/Storage.antt =====
-- pkg/framework/storage.go
use openshift_online_rosa_e.Base.{
  String, true, false, not, ◌==◌, [], ◌∷◌, none, some, if◌then◌else◌,
}
use openshift_online_rosa_e.Base.Io.{Io, within, pure, ◌>>◌}
use openshift_online_rosa_e.Framework.Fixtures.{
  Claim, TestPod, KubeApi, FixtureError, creating_pvc, creating_pod,
}

abbrev pub test_claim : String → String → Claim
test_claim namespace storage_class = record {
  name = "test-pvc";
  namespace = namespace;
  access_modes = "ReadWriteOnce" ∷ [];
  storage = "1Gi";
  storage_class = if not (storage_class == "") then some storage_class else none;
}

abbrev pub test_pod : String → String → TestPod
test_pod namespace pvc_name = record {
  name = "test-pod-pvc";
  namespace = namespace;
  spec = record {
    security = some (record {
      run_as_non_root = true;
      run_as_user = 1000;
      fs_group = 1000;
      seccomp_profile = "RuntimeDefault";
    });
    containers =
        record {
          name = "busybox";
          image = "registry.access.redhat.com/ubi9/ubi-minimal:latest";
          command = "/bin/sh" ∷ [];
          args = "-c" ∷ "echo 'test data' > /data/test.txt && sleep 3600" ∷ [];
          ports = [];
          volume_mounts = ("data", "/data") ∷ [];
          security = some (record { allow_privilege_escalation = false; drop = "ALL" ∷ [] });
        }
        ∷ [];
    volumes = ("data", pvc_name) ∷ [];
  };
}

module _ {World : Type 0} (api : KubeApi World) where
  -- `CreateTestPVC`
  unfoldable pub create_test_pvc : String → String → Io FixtureError World String
  create_test_pvc namespace storage_class =
      within creating_pvc (api.create_claim (test_claim namespace storage_class)) >> pure "test-pvc"

  -- `CreateTestPodWithPVC`
  unfoldable pub create_test_pod_with_pvc : String → String → Io FixtureError World String
  create_test_pod_with_pvc namespace pvc_name =
      within creating_pod (api.create_pod (test_pod namespace pvc_name)) >> pure "test-pod-pvc"
