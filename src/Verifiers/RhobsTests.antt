-- ===== src/Verifiers/RhobsTests.antt =====
-- Runs of pkg/verifiers/rhobs.go, and the theorems at their data.
use mathlib.Core.List.{Permᴰ}
use openshift_online_rosa_e.Base.{
  ℕ, ◌+◌, String, ◌<>◌, ◌≡◌, refl, ◌↔◌, Bool, true, false, [], ◌∷◌, OkAnd, eqb, ok, err, none, some,
  if◌then◌else◌, Dict,
}
use openshift_online_rosa_e.Base.Query.{query_escape}
use openshift_online_rosa_e.Unstructured.{
  Fields, end, field, text, object, array, nil, cons, lookup, get_string?,
}
use openshift_online_rosa_e.Verifiers.Rhobs.{RhobsProbe, RhobsConfig, RhobsWorld}
use openshift_online_rosa_e.Verifiers.Rhobs.Token.{attempt, token_loop, get_oidc_access_token}
use openshift_online_rosa_e.Verifiers.Rhobs.Token.Granted.{GrantedAfter, get_oidc_access_token_iff}
use openshift_online_rosa_e.Verifiers.Rhobs.Token.Bounds.{
  Counted, Within, get_oidc_access_token-Within,
}
use openshift_online_rosa_e.Verifiers.Rhobs.Probes.{
  probes_url, query_rhobs_probes, judge_probe, verify_rhobs_probe_exists, verify_probe_labels,
}
use openshift_online_rosa_e.Verifiers.Rhobs.Probes.Queried.{AnswersWith, query_rhobs_probes_iff}
use openshift_online_rosa_e.Verifiers.Rhobs.Probes.Labels.{
  IsOneProbe, FirstHas, verify_rhobs_probe_exists_iff, verify_probe_labels_iff,
}

-- An identity provider that fails once, and an API with one probe. The world is the number of posts and
-- the seconds slept.

abbrev pub cfg : RhobsConfig
cfg = record {
  probe_api_url = "https://rhobs/probes";
  metrics_api_url = "https://rhobs";
  oidc_client_id = "id";
  oidc_client_secret = "secret";
  oidc_issuer_url = "https://sso";
}

abbrev pub probe : RhobsProbe
probe = record {
  id = "p";
  static_url = "https://api";
  labels = field "cluster-id" (text "abc") (field "private" (text "false") end);
  status = "active";
}

abbrev pub samples : String → Fields
samples value = field "status" (text "success") (
    field "data"
      (object (
        field "result"
          (array (
            cons
              (object (
                field "metric" (object (field "__name__" (text "up") end))
                  (field "value" (array (cons (text "0") (cons (text value) nil))) end)))
              nil))
          end))
      end)

abbrev pub no_samples_yet : Fields
no_samples_yet =
    field "status" (text "success") (field "data" (object (field "result" (array nil) end)) end)

-- The API has metrics, or it has none.
abbrev pub outside : Bool → RhobsWorld (ℕ × ℕ)
outside has_metrics = record {
  new_request = λ url. none;
  post_form = λ url form w. (
    ok (
        if eqb w.0 0
        then record { status = 503; body = "later"; read_error = none }
        else record { status = 200; body = "token"; read_error = none }),
    (w.0 + 1, w.1),
  );
  get = λ token url w. (ok (record { status = 200; body = "body"; read_error = none }), w);
  sleep = λ duration w. (w.0, w.1 + duration);
  unmarshal_token = λ body. ok body;
  unmarshal_probes = λ body. err "an object";
  unmarshal_wrapper = λ body. ok (probe ∷ []);
  decode_metrics = λ response. ok (if has_metrics then samples "7" else no_samples_yet);
}

the_second_attempt_is_granted :
    get_oidc_access_token (outside true) cfg (0, 0) ≡ (ok "token", (2, 5))
unfolding get_oidc_access_token token_loop attempt
the_second_attempt_is_granted = refl

get_oidc_access_token_iff_example :
    ((get_oidc_access_token (outside true) cfg (0, 0)).0 ≡ ok "token") ↔ (
      ((outside true).new_request "https://sso" ≡ none)
      × GrantedAfter (outside true) cfg (5 ∷ 10 ∷ 20 ∷ []) "token" (0, 0))
get_oidc_access_token_iff_example = get_oidc_access_token_iff (outside true) cfg "token" (0, 0)

abbrev posts : ℕ × ℕ → ℕ
posts w = w.0

abbrev slept : ℕ × ℕ → ℕ
slept w = w.1

outside-Counted : Counted (outside true) posts slept
outside-Counted = record {
  post_counts = λ url form w. refl;
  post_sleeps = λ url form w. refl;
  sleep_posts = λ duration w. refl;
  sleep_counts = λ duration w. refl;
}

get_oidc_access_token-Within_example :
    Within posts slept 4 35 (0, 0) (get_oidc_access_token (outside true) cfg (0, 0)).1
get_oidc_access_token-Within_example =
    get_oidc_access_token-Within (outside true) posts slept outside-Counted cfg (0, 0)

selectors_are_escaped :
    probes_url cfg "cluster-id=a b" ≡ "https://rhobs/probes?label_selector=cluster-id%3Da+b"
unfolding probes_url query_escape
selectors_are_escaped = refl

query_rhobs_probes_iff_example :
    ((query_rhobs_probes (outside true) cfg "cluster-id=abc" (0, 0)).0 ≡ ok (probe ∷ [])) ↔ (
      (token : String) × ((get_oidc_access_token (outside true) cfg (0, 0)).0 ≡ ok token)
      × ((outside true).new_request (probes_url cfg "cluster-id=abc") ≡ none)
      × AnswersWith
          (outside true)
          cfg
          ((outside true).get
            (some token)
            (probes_url cfg "cluster-id=abc")
            (get_oidc_access_token (outside true) cfg (0, 0)).1)
          (probe ∷ []))
query_rhobs_probes_iff_example =
    query_rhobs_probes_iff (outside true) cfg "cluster-id=abc" (0, 0) (probe ∷ [])

the_public_probe_is_found :
    (verify_rhobs_probe_exists (outside true) cfg "abc" false (0, 0)).0 ≡ ok tt
unfolding verify_rhobs_probe_exists query_rhobs_probes get_oidc_access_token token_loop attempt
    judge_probe get_string? lookup
the_public_probe_is_found = refl

verify_rhobs_probe_exists_iff_example :
    ((verify_rhobs_probe_exists (outside true) cfg "abc" false (0, 0)).0 ≡ ok tt)
    ↔ OkAnd
        (IsOneProbe "abc" false)
        (query_rhobs_probes (outside true) cfg ("cluster-id=" <> "abc") (0, 0)).0
verify_rhobs_probe_exists_iff_example =
    verify_rhobs_probe_exists_iff (outside true) cfg "abc" false (0, 0)

abbrev expected : Dict String String
expected = ("private", "false") ∷ ("cluster-id", "abc") ∷ []

abbrev visited : Dict String String
visited = ("cluster-id", "abc") ∷ ("private", "false") ∷ []

verify_probe_labels_iff_example :
    ((verify_probe_labels (outside true) cfg "abc" visited (0, 0)).0 ≡ ok tt)
    ↔ OkAnd
        (FirstHas expected)
        (query_rhobs_probes (outside true) cfg ("cluster-id=" <> "abc") (0, 0)).0
verify_probe_labels_iff_example =
    verify_probe_labels_iff (outside true) cfg "abc" visited expected (Permᴰ.swap refl refl) (0, 0)
