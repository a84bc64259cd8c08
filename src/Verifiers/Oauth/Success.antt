-- ===== src/Verifiers/Oauth/Success.antt =====
-- pkg/verifiers/oauth_readiness.go: what a success has seen.
use openshift_online_rosa_e.Base.{
  ℕ, zero, suc, String, ◌≡◌, ◌≢◌, refl, sym, ap, subst, ◌∙◌, Bool, true, false, List, [], ◌∷◌, All,
  all_iff, eqb_iff, ltb, Result, ok, err, Option, none, some, Bool-cases, inl, inr, ◌↔◌,
  false-ne-true,
}
use openshift_online_rosa_e.Base.Io.{Io, proceed, within}
use openshift_online_rosa_e.Base.Io.Laws.{within-bind-ok, rewrap-ok, rewrap-state}
use openshift_online_rosa_e.Verifiers.Conditions.{ApiError}
use openshift_online_rosa_e.Verifiers.Oauth.{
  Pod, OauthError, pod_readiness, well_known_endpoint, OauthCluster, is_pod_containers_ready,
  are_pods_ready, woken, again, round, poll, read_pods, list_ready, wait_for_oauth_pod_readiness,
  read_status, send, probe, endpoint_of, wait_for_oauth_well_known_endpoint,
  verify_oauth_server_readiness,
}

-- A pod with a container, and each container ready
abbrev pub IsReadyPod : Pod → Type 0
IsReadyPod pod = (pod ≢ []) × All (λ ready. ready ≡ true) pod

is_pod_containers_ready_iff : (pod : Pod) → (is_pod_containers_ready pod ≡ true) ↔ IsReadyPod pod
unfolding is_pod_containers_ready
is_pod_containers_ready_iff [] = (λ h. false-ne-true h, λ h. absurd (h.0 refl))
is_pod_containers_ready_iff (ready ∷ statuses) =
    let each_ready =
      all_iff {p = λ b. b} {P = λ b. b ≡ true} (λ b. (λ h. h, λ h. h)) (ready ∷ statuses) in
    (λ h. (λ k. cc, each_ready.0 h), λ h. each_ready.1 h.1)

are_pods_ready-All :
    (pods : List Pod) → are_pods_ready pods ≡ true → (pods ≢ []) × All IsReadyPod pods
unfolding are_pods_ready
are_pods_ready-All [] h = false-ne-true h
are_pods_ready-All (pod ∷ pods) h =
    (λ k. cc, (all_iff is_pod_containers_ready_iff (pod ∷ pods)).0 h)

answer_true : {b : Bool} → Path (Result OauthError Bool) (ok b) (ok true) → b ≡ true
answer_true h = cc

-- The last attempt of a loop succeeded with true, and left the world as it is.
record Last {World : Type 0} (attempt : Io OauthError World Bool) (w : World) : Type 0 where
  before : World
  answered : (attempt before).0 ≡ ok true
  left : (attempt before).1 ≡ w

module _ {World : Type 0} (cluster : OauthCluster World) where
  woken-ok :
      (P : World → Type 0) (rest : Io OauthError World (Unit {0})) (slept : Option ApiError × World)
      → ((w : World) → (rest w).0 ≡ ok tt → P (rest w).1)
      → (proceed (λ _. rest) (woken cluster slept)).0 ≡ ok tt
      → P (proceed (λ _. rest) (woken cluster slept)).1
  woken-ok P rest (none, w) keep h = keep w h
  woken-ok P rest (some e, w) keep h = cc

  again-ok :
      (P : World → Type 0) (interval : ℕ) (rest : Io OauthError World (Unit {0}))
      (answer : Result OauthError Bool × World)
      → ((w : World) → (rest w).0 ≡ ok tt → P (rest w).1)
      → (answer.0 ≡ ok true → P answer.1)
      → (proceed (again cluster interval rest) answer).0 ≡ ok tt
      → P (proceed (again cluster interval rest) answer).1
  again-ok P interval rest (err e, w) keep now h = cc
  again-ok P interval rest (ok true, w) keep now h = now refl
  again-ok P interval rest (ok false, w) keep now h =
      woken-ok P rest (cluster.sleep interval w) keep h

  round-Last :
      (deadline interval : ℕ) (late : OauthError) (attempt : Io OauthError World Bool)
      (rest : Io OauthError World (Unit {0})) (w : World)
      → ((w : World) → (rest w).0 ≡ ok tt → Last attempt (rest w).1)
      → (round cluster deadline interval late attempt rest w).0 ≡ ok tt
      → Last attempt (round cluster deadline interval late attempt rest w).1
  unfolding round
  round-Last deadline interval late attempt rest w keep h =
      elim (Bool-cases (ltb deadline (cluster.now w))) [
        | inl over ↦ cc (over, rw over at h)
        | inr in_time ↦ rw in_time (
            again-ok (Last attempt) interval rest (attempt w) keep
              (λ answered. record { before = w; answered = answered; left = refl })
              (rw in_time at h))
      ]

  poll-Last :
      (rounds deadline interval : ℕ) (late : OauthError) (attempt : Io OauthError World Bool)
      (w : World)
      → (poll cluster rounds deadline interval late attempt w).0 ≡ ok tt
      → Last attempt (poll cluster rounds deadline interval late attempt w).1
  unfolding poll
  poll-Last zero deadline interval late attempt w h = cc
  poll-Last (suc rounds) deadline interval late attempt w h =
      round-Last deadline interval late attempt _ w
        (poll-Last rounds deadline interval late attempt) h

  -- Pods were listed, there are some, and each has containers that are all ready.
  pub record SeenPods : Type 0 where
    pub at : World
    pub pods : List Pod
    pub listed : (cluster.list_pods at).0 ≡ ok pods
    pub ready : (pods ≢ []) × All IsReadyPod pods

  -- The world is the one that a response of the endpoint left, and that response had status 200.
  pub record SeenOk (endpoint : String) (w : World) : Type 0 where
    pub before : World
    pub answered : (cluster.get_status endpoint before).0 ≡ ok 200
    pub left : (cluster.get_status endpoint before).1 ≡ w

  list_ready-SeenPods : (w : World) → (list_ready cluster w).0 ≡ ok true → SeenPods
  list_ready-SeenPods w h = read (cluster.list_pods w) refl h
    where
      read :
          (answer : Result ApiError (List Pod) × World)
          → cluster.list_pods w ≡ answer
          → (read_pods cluster answer).0 ≡ ok true
          → SeenPods
      read (err e, w') same h = cc
      read (ok pods, w') same h = record {
        at = w;
        pods = pods;
        listed = ap (λ answer. answer.0) same;
        ready = are_pods_ready-All pods (answer_true h);
      }

  probe-SeenOk :
      (endpoint : String) (w : World) → Last (probe cluster endpoint) w → SeenOk endpoint w
  probe-SeenOk endpoint w last = sent (cluster.new_request endpoint) last
    where
      read :
          (before : World) (answer : Result ApiError ℕ × World)
          → cluster.get_status endpoint before ≡ answer
          → (read_status cluster answer).0 ≡ ok true
          → (read_status cluster answer).1 ≡ w
          → SeenOk endpoint w
      read before (err e, w') same h left = cc
      read before (ok status, w') same h left = record {
        before = before;
        answered = ap (λ answer. answer.0) same ∙ ap ok ((eqb_iff status 200).0 (answer_true h));
        left = ap (λ answer. answer.1) same ∙ left;
      }

      sent : (built : Option ApiError) → Last (send cluster endpoint built) w → SeenOk endpoint w
      sent (some e) last = cc (last.answered)
      sent none last =
          read last.before (cluster.get_status endpoint last.before) refl last.answered last.left

  pods_ready :
      (timeout : ℕ) (w : World)
      → (wait_for_oauth_pod_readiness cluster timeout w).0 ≡ ok tt
      → SeenPods
  unfolding wait_for_oauth_pod_readiness
  pods_ready timeout w h =
      let last = poll-Last _ _ _ _ (list_ready cluster) w h in
      list_ready-SeenPods last.before last.answered

  endpoint_ok :
      (api_server_url : String) (timeout : ℕ) (w : World)
      → (wait_for_oauth_well_known_endpoint cluster api_server_url timeout w).0 ≡ ok tt
      → SeenOk
          (endpoint_of cluster api_server_url)
          (wait_for_oauth_well_known_endpoint cluster api_server_url timeout w).1
  unfolding wait_for_oauth_well_known_endpoint
  endpoint_ok api_server_url timeout w h =
      probe-SeenOk (endpoint_of cluster api_server_url) _
        (poll-Last _ _ _ _ (probe cluster (endpoint_of cluster api_server_url)) w h)

  -- When VerifyOAuthServerReadiness succeeds, it has listed pods of which there is at least one and
  -- each has containers that are all ready, and its last act was a request to the well-known endpoint
  -- that was answered with status 200.
  pub verify_oauth_server_readiness-Seen :
      (api_server_url : String) (timeout : ℕ) (w : World)
      → (verify_oauth_server_readiness cluster api_server_url timeout w).0 ≡ ok tt
      → SeenPods
        × SeenOk
            (endpoint_of cluster api_server_url)
            (verify_oauth_server_readiness cluster api_server_url timeout w).1
  unfolding verify_oauth_server_readiness
  verify_oauth_server_readiness-Seen api_server_url timeout w h =
      let wait = wait_for_oauth_pod_readiness cluster timeout in
      let ask = wait_for_oauth_well_known_endpoint cluster api_server_url timeout in
      let (_, found, same) =
        within-bind-ok pod_readiness wait (λ _. within well_known_endpoint ask) w h in
      let w' = (wait w).1 in
      let served = rewrap-ok well_known_endpoint (ask w') (sym (ap (λ p. p.0) same) ∙ h) in
      (
        pods_ready timeout w found,
        subst (SeenOk (endpoint_of cluster api_server_url))
            (sym (ap (λ p. p.1) same ∙ rewrap-state well_known_endpoint (ask w')))
            (endpoint_ok api_server_url timeout w' served),
      )
