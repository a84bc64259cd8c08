-- ===== src/Framework/Fixtures/Namespaces.antt =====
-- pkg/framework/namespace.go
use openshift_online_rosa_e.Base.{
  String, Bool, true, false, not, [], ◌∷◌, if◌then◌else◌, Result, ok, err,
}
use openshift_online_rosa_e.Base.Io.{Io, within, pure, ◌>>◌}
use openshift_online_rosa_e.Verifiers.Conditions.{ApiError}
use openshift_online_rosa_e.Framework.Fixtures.{
  Namespace, KubeApi, FixtureError, creating_namespace, deleting_namespace, is_non_transient_error,
}

abbrev pub labelled : String → Namespace
labelled name = record {
  name = name;
  labels = ("e2e-test", "true") ∷ ("created-by", "rosa-e2e") ∷ [];
}

module _ {World : Type 0} (api : KubeApi World) where
  -- What a round makes of the answer to the creation: an end, an error or another round
  abbrev pub judge_creation : Result ApiError (Unit {0}) × World → Result ApiError Bool × World
  judge_creation (ok tt, w) = (ok true, w)
  judge_creation (err e, w) =
      if api.is_already_exists e
      then (ok true, w)
      else if is_non_transient_error api e
      then (err e, w)
      else (ok false, w)

  -- The condition of the poll
  unfoldable pub try_create : String → World → Result ApiError Bool × World
  unfolding is_non_transient_error
  try_create name w = judge_creation (api.create_namespace (labelled name) w)

  abbrev pub poll_creation : String → Io ApiError World (Unit {0})
  poll_creation name = api.poll_until_context_timeout 10 120 true (try_create name)

  -- `cleanup`
  abbrev pub judge_deletion :
      String → Result ApiError (Unit {0}) × World → Result FixtureError (Unit {0}) × World
  judge_deletion name (ok tt, w) = (ok tt, w)
  judge_deletion name (err e, w) =
      if not (api.is_not_found e) then (err (deleting_namespace name e), w) else (ok tt, w)

  unfoldable pub delete_test_namespace : String → Io FixtureError World (Unit {0})
  delete_test_namespace name w = judge_deletion name (api.delete_namespace name w)

  -- `CreateTestNamespace`: on success the cleanup function is returned.
  unfoldable pub create_test_namespace :
      String → Io FixtureError World (Io FixtureError World (Unit {0}))
  unfolding try_create delete_test_namespace
  create_test_namespace name =
      within (creating_namespace name) (poll_creation name) >> pure (delete_test_namespace name)
