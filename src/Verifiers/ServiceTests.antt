-- ===== src/Verifiers/ServiceTests.antt =====
-- The parallel run, the OCM role, the OAuth server and CloudTrail of pkg/verifiers, run, and the theorems
-- at their data.
use openshift_online_rosa_e.Base.{
  ℕ, ◌+◌, String, ◌≡◌, refl, ◌≢◌, ◌↔◌, true, List, [], ◌∷◌, All, Option, none, some, ok, err, arith,
  collect, eqb, ◌==◌, if◌then◌else◌,
}
use mathlib.Core.List.{Perm}
use openshift_online_rosa_e.Base.Text.{
  contains, has_prefix, split_commas, trim_left, trim_right, trim_space,
}
use openshift_online_rosa_e.Unstructured.{
  Fields, end, field, get_map?, get_string, get_string?, lookup, object, text,
}
use openshift_online_rosa_e.Verifiers.Conditions.{ApiError}
use openshift_online_rosa_e.Verifiers.Run.{
  Verifier, Step, done, Steps, stop, step, start, join_errors, failure_of,
}
use openshift_online_rosa_e.Verifiers.Run.Outcome.{Steps-join_errors, Steps-room_and_end}
use openshift_online_rosa_e.Verifiers.OcmRole.{
  Accounts, no_role_for_account, get_linked_ocm_role_arns, verify_ocm_role_linked_for_account,
}
use openshift_online_rosa_e.Verifiers.OcmRole.Linked.{
  OfOrganization, LinksRole, LinksNothing, verify_for_account_iff,
}
use openshift_online_rosa_e.Verifiers.CloudTrail.{
  Trail, verify_no_access_denied, read_pages, is_known_denial, caller_arn_from_event,
}
use openshift_online_rosa_e.Verifiers.CloudTrail.Pages.{CleanFrom, verify_no_access_denied_iff}
use openshift_online_rosa_e.Verifiers.Oauth.{
  wait_for_oauth_pod_readiness, wait_for_oauth_well_known_endpoint, poll, round, are_pods_ready,
  is_pod_containers_ready, OauthCluster, endpoint_of, verify_oauth_server_readiness,
}
use openshift_online_rosa_e.Verifiers.Oauth.Ready.{
  IsClock, EndedInTime, verify_oauth_server_readiness-EndedInTime,
}
use openshift_online_rosa_e.Verifiers.Oauth.Success.{
  SeenPods, SeenOk, verify_oauth_server_readiness-Seen,
}

-- A run of three verifiers

abbrev verifier : String → Option ApiError → Verifier
verifier name failure = record { name = name; failure = failure }

abbrev three : List Verifier
three = verifier "a" (some "x") ∷ verifier "b" none ∷ verifier "c" (some "z") ∷ []

abbrev first_c : Steps (start three) (record {
  capacity = 3;
  running = verifier "a" (some "x") ∷ verifier "b" none ∷ [];
  sent = ("c", "z") ∷ [];
})
first_c =
    step
      (done 3 (verifier "a" (some "x") ∷ verifier "b" none ∷ []) (verifier "c" (some "z")) [] []
        (omega arith))
      (stop _)

abbrev third_first :
    Steps (start three) (record { capacity = 3; running = []; sent = ("c", "z") ∷ ("a", "x") ∷ [] })
third_first =
    step
      (done 3 (verifier "a" (some "x") ∷ verifier "b" none ∷ []) (verifier "c" (some "z")) [] []
        (omega arith))
      (step
        (done 3 [] (verifier "a" (some "x")) (verifier "b" none ∷ []) (("c", "z") ∷ [])
          (omega arith))
        (step (done 3 [] (verifier "b" none) [] (("c", "z") ∷ ("a", "x") ∷ []) tt) (stop _)))

Steps-join_errors_example :
    Perm (("c", "z") ∷ ("a", "x") ∷ []) (collect failure_of three)
    × ((join_errors (("c", "z") ∷ ("a", "x") ∷ []) ≡ ok tt) ↔ All (λ v. v.failure ≡ none) three)
Steps-join_errors_example = Steps-join_errors three 3 (("c", "z") ∷ ("a", "x") ∷ []) third_first

-- One failure is in the buffer, and two goroutines run.
Steps-room_and_end_example :
    Step
      (record {
        capacity = 3;
        running = verifier "a" (some "x") ∷ verifier "b" none ∷ [];
        sent = ("c", "z") ∷ [];
      })
      (record {
        capacity = 3;
        running = verifier "b" none ∷ [];
        sent = ("c", "z") ∷ ("a", "x") ∷ [];
      })
    × ((end : List (String × ApiError)) × Steps
          (record {
            capacity = 3;
            running = verifier "a" (some "x") ∷ verifier "b" none ∷ [];
            sent = ("c", "z") ∷ [];
          })
          (record { capacity = 3; running = []; sent = end }))
Steps-room_and_end_example =
    Steps-room_and_end three 3 [] (verifier "a" (some "x")) (verifier "b" none ∷ [])
      (("c", "z") ∷ []) first_c

-- An organization with a linked role and another entry

abbrev accounts : Accounts
accounts = record {
  current_organization = ok (some "org");
  get_label = λ org key. ok "arn-1, other";
  parse_arn = λ s.
      if s == "arn-1"
      then some (record { account_id = "123"; service = "iam"; resource = "role/OCM" })
      else none;
}

verify_for_account_iff_example :
    ((verify_ocm_role_linked_for_account accounts "123" ≡ ok tt) ↔ (
      ◌≢◌ {A = String} "123" ""
      × OfOrganization accounts (LinksRole accounts "123") (ok (some "org"))))
    × ((verify_ocm_role_linked_for_account accounts "123" ≡ err (no_role_for_account "123" 0)) ↔ (
        ◌≢◌ {A = String} "123" ""
        × OfOrganization accounts (LinksNothing accounts) (ok (some "org"))))
verify_for_account_iff_example = verify_for_account_iff accounts "123"

linked : get_linked_ocm_role_arns accounts ≡ ok ("arn-1" ∷ [])
unfolding get_linked_ocm_role_arns collect split_commas trim_space trim_left trim_right has_prefix
linked = refl

-- An OAuth server whose pods are ready from the second round on; the world is the time.

abbrev oauth : OauthCluster ℕ
oauth = record {
  now = λ w. w;
  list_pods = λ w. (ok (if eqb w 0 then [] else (true ∷ true ∷ []) ∷ []), w);
  new_request = λ endpoint. none;
  get_status = λ endpoint w. (ok 200, w);
  sleep = λ duration w. (none, w + duration);
}

oauth-IsClock : IsClock oauth
oauth-IsClock = record {
  list_later = λ w. omega arith;
  get_later = λ endpoint w. omega arith;
  sleep_longer = λ duration w fired. omega arith;
}

verify_oauth_server_readiness-EndedInTime_example :
    EndedInTime (verify_oauth_server_readiness oauth "https://api/" 60 0).0
verify_oauth_server_readiness-EndedInTime_example =
    verify_oauth_server_readiness-EndedInTime oauth oauth-IsClock "https://api/" 60 0

served : (verify_oauth_server_readiness oauth "https://api/" 60 0).0 ≡ ok tt
unfolding verify_oauth_server_readiness wait_for_oauth_pod_readiness
    wait_for_oauth_well_known_endpoint poll round are_pods_ready is_pod_containers_ready
served = refl

verify_oauth_server_readiness-Seen_example :
    SeenPods oauth
    × SeenOk oauth
        (endpoint_of oauth "https://api/")
        (verify_oauth_server_readiness oauth "https://api/" 60 0).1
verify_oauth_server_readiness-Seen_example =
    verify_oauth_server_readiness-Seen oauth "https://api/" 60 0 served

-- Two pages of events, the second with a denial that is known

abbrev denied_json : Fields
denied_json =
    field "errorCode" (text "Client.AccessDenied")
      (field "userIdentity" (object (field "arn" (text "arn:role/x-Installer-Role") end)) end)

abbrev trail : Trail
trail = record {
  lookup_events = λ token. elim token [
    | none ↦ ok (record { events = []; next_token = some "2" })
    | some _ ↦ ok (record {
      events =
          record {
            cloud_trail_event = some "x";
            event_name = some "DeleteListener";
            event_time = some "now";
          }
          ∷ [];
      next_token = none;
    })
  ];
  decode = λ s. some denied_json;
}

passes : verify_no_access_denied trail "" ≡ ok tt
unfolding verify_no_access_denied read_pages collect contains has_prefix get_string get_string?
    get_map? lookup is_known_denial caller_arn_from_event
passes = refl

verify_no_access_denied_iff_example :
    (verify_no_access_denied trail "" ≡ ok tt) ↔ CleanFrom trail "" 5 none
verify_no_access_denied_iff_example = verify_no_access_denied_iff trail ""
