-- ===== src/Verifiers/Oauth/Ready.antt =====
-- pkg/verifiers/oauth_readiness.go: the loops end, and what success means.
use openshift_online_rosa_e.Base.{
  ℕ, zero, suc, ◌+◌, ◌*◌, ◌≤◌, ◌<◌, String, ◌≡◌, ◌≢◌, refl, ap, Bool, true, false, List, ltb,
  Result, ok, err, Option, none, some, Bool-cases, inl, inr, arith,
}
use Prim.Native.Nat.{◌/◌}
use openshift_online_rosa_e.Base.Io.{Io, proceed, within, rewrap}
use openshift_online_rosa_e.Verifiers.Conditions.{ApiError}
use openshift_online_rosa_e.Verifiers.Oauth.{
  Pod, OauthError, out_of_fuel, pod_readiness, well_known_endpoint, timed_out_pods,
  timed_out_endpoint, OauthCluster, pod_poll_interval, endpoint_poll_interval, woken, again, round,
  poll, read_pods, list_ready, wait_for_oauth_pod_readiness, read_status, send, probe, endpoint_of,
  wait_for_oauth_well_known_endpoint, verify_oauth_server_readiness,
}

-- What a clock does: a call never turns it back, and a timer that fires has waited its time.
pub record IsClock {World : Type 0} (cluster : OauthCluster World) : Type 0 where
  pub list_later : (w : World) → cluster.now w ≤ cluster.now (cluster.list_pods w).1
  pub get_later :
      (endpoint : String) (w : World)
      → cluster.now w ≤ cluster.now (cluster.get_status endpoint w).1
  pub sleep_longer :
      (duration : ℕ) (w : World)
      → (cluster.sleep duration w).0 ≡ none
      → cluster.now w + duration ≤ cluster.now (cluster.sleep duration w).1

-- An attempt that keeps to the clock, and never answers that fuel ran out
record Attempts {World : Type 0} (cluster : OauthCluster World) (attempt : Io OauthError World Bool)
    : Type 0 where
  later : (w : World) → cluster.now w ≤ cluster.now (attempt w).1
  fuelled : (w : World) → (attempt w).0 ≢ err out_of_fuel

module _ {World : Type 0} (cluster : OauthCluster World) where
  woken-ne-out_of_fuel :
      (rest : Io OauthError World (Unit {0})) (slept : Option ApiError × World)
      → (slept.0 ≡ none → (rest slept.1).0 ≢ err out_of_fuel)
      → (proceed (λ _. rest) (woken cluster slept)).0 ≢ err out_of_fuel
  woken-ne-out_of_fuel rest (none, w) h = h refl
  woken-ne-out_of_fuel rest (some e, w) h = λ k. cc

  again-ne-out_of_fuel :
      IsClock cluster
      → (interval : ℕ) (rest : Io OauthError World (Unit {0}))
        (answer : Result OauthError Bool × World)
      → answer.0 ≢ err out_of_fuel
      → ((w : World)
          → cluster.now answer.1 + interval ≤ cluster.now w
          → (rest w).0 ≢ err out_of_fuel)
      → (proceed (again cluster interval rest) answer).0 ≢ err out_of_fuel
  again-ne-out_of_fuel clock interval rest (err e, w) failed later = λ h. failed (same h)
    where
      same :
          {e : OauthError}
          → Path (Result OauthError (Unit {0})) (err e) (err out_of_fuel)
          → Path (Result OauthError Bool) (err e) (err out_of_fuel)
      same h = cc
  again-ne-out_of_fuel clock interval rest (ok true, w) failed later = λ h. cc
  again-ne-out_of_fuel clock interval rest (ok false, w) failed later =
      woken-ne-out_of_fuel rest (cluster.sleep interval w)
        (λ fired. later _ (clock.sleep_longer interval w fired))

  round-ne-out_of_fuel :
      IsClock cluster
      → (deadline interval : ℕ) (late : OauthError) (attempt : Io OauthError World Bool)
        (rest : Io OauthError World (Unit {0}))
      → late ≢ out_of_fuel
      → Attempts cluster attempt
      → (w : World)
      → ((w' : World)
          → cluster.now w ≤ deadline
          → cluster.now w + interval ≤ cluster.now w'
          → (rest w').0 ≢ err out_of_fuel)
      → (round cluster deadline interval late attempt rest w).0 ≢ err out_of_fuel
  unfolding round
  round-ne-out_of_fuel clock deadline interval late attempt rest named attempts w h =
      elim (Bool-cases (ltb deadline (cluster.now w))) [
        | inl over ↦ rw over (λ k. named (inner k))
        | inr in_time ↦ rw in_time (
            again-ne-out_of_fuel clock interval rest (attempt w) (attempts.fuelled w)
              (λ w' after. h w' (ground arith) (omega (arith, attempts.later w))))
      ]
    where
      inner :
          {late : OauthError}
          → Path (Result OauthError (Unit {0})) (err late) (err out_of_fuel)
          → late ≡ out_of_fuel
      inner h = cc

  poll-ne-out_of_fuel :
      IsClock cluster
      → (rounds deadline interval : ℕ) (late : OauthError) (attempt : Io OauthError World Bool)
      → late ≢ out_of_fuel
      → Attempts cluster attempt
      → (w : World) → deadline < cluster.now w + rounds * interval
      → (poll cluster (suc rounds) deadline interval late attempt w).0 ≢ err out_of_fuel
  unfolding poll
  poll-ne-out_of_fuel clock zero deadline interval late attempt named attempts w enough =
      round-ne-out_of_fuel clock deadline interval late attempt _ named attempts w
        (λ w' before _. absurd (omega arith))
  poll-ne-out_of_fuel clock (suc rounds) deadline interval late attempt named attempts w enough =
      round-ne-out_of_fuel clock deadline interval late attempt _ named attempts w (λ w' _ later.
        poll-ne-out_of_fuel clock rounds deadline interval late attempt named attempts w'
          (omega arith))

  read_pods-Attempts : IsClock cluster → Attempts cluster (list_ready cluster)
  read_pods-Attempts clock = record {
    later = λ w. read (cluster.now w) (cluster.list_pods w) (clock.list_later w);
    fuelled = λ w. fuel (cluster.list_pods w);
  }
    where
      read :
          (n : ℕ) (answer : Result ApiError (List Pod) × World)
          → n ≤ cluster.now answer.1
          → n ≤ cluster.now (read_pods cluster answer).1
      read n (ok pods, w) h = h
      read n (err e, w) h = h

      fuel :
          (answer : Result ApiError (List Pod) × World)
          → (read_pods cluster answer).0 ≢ err out_of_fuel
      fuel (ok pods, w) = λ h. cc
      fuel (err e, w) = λ h. cc

  send-Attempts :
      IsClock cluster
      → (endpoint : String) (built : Option ApiError)
      → Attempts cluster (send cluster endpoint built)
  send-Attempts clock endpoint (some e) = record { later = λ w. omega arith; fuelled = λ w h. cc }
  send-Attempts clock endpoint none = record {
    later = λ w. read (cluster.now w) (cluster.get_status endpoint w) (clock.get_later endpoint w);
    fuelled = λ w. fuel (cluster.get_status endpoint w);
  }
    where
      read :
          (n : ℕ) (answer : Result ApiError ℕ × World)
          → n ≤ cluster.now answer.1
          → n ≤ cluster.now (read_status cluster answer).1
      read n (ok status, w) h = h
      read n (err e, w) h = h

      fuel : (answer : Result ApiError ℕ × World) → (read_status cluster answer).0 ≢ err out_of_fuel
      fuel (ok status, w) = λ h. cc
      fuel (err e, w) = λ h. cc

  wait_for_oauth_pod_readiness-ne-out_of_fuel :
      IsClock cluster
      → (timeout : ℕ) (w : World)
      → (wait_for_oauth_pod_readiness cluster timeout w).0 ≢ err out_of_fuel
  unfolding wait_for_oauth_pod_readiness
  wait_for_oauth_pod_readiness-ne-out_of_fuel clock timeout w =
      poll-ne-out_of_fuel clock (suc (timeout / pod_poll_interval)) _ pod_poll_interval
        timed_out_pods (list_ready cluster) (λ h. cc) (read_pods-Attempts clock) w (grind arith)

  wait_for_endpoint-ne-out_of_fuel :
      IsClock cluster
      → (api_server_url : String) (timeout : ℕ) (w : World)
      → (wait_for_oauth_well_known_endpoint cluster api_server_url timeout w).0 ≢ err out_of_fuel
  unfolding wait_for_oauth_well_known_endpoint
  wait_for_endpoint-ne-out_of_fuel clock api_server_url timeout w =
      poll-ne-out_of_fuel clock (suc (timeout / endpoint_poll_interval)) _ endpoint_poll_interval
        timed_out_endpoint (probe cluster (endpoint_of cluster api_server_url)) (λ h. cc)
        (send-Attempts clock _ _) w (grind arith)

-- The error came from the loop on pods, or from the one on the endpoint, within its rounds.
abbrev pub EndedInTime : Result OauthError (Unit {0}) → Type 0
EndedInTime (ok _) = Unit
EndedInTime (err (pod_readiness e)) = e ≢ out_of_fuel
EndedInTime (err (well_known_endpoint e)) = e ≢ out_of_fuel
EndedInTime (err _) = ⊥

module _ {World : Type 0} (cluster : OauthCluster World) where
  -- Over a clock that no call turns back and timers that wait their time, both loops of
  -- VerifyOAuthServerReadiness end within the modelled rounds, whatever the timeout.
  pub verify_oauth_server_readiness-EndedInTime :
      IsClock cluster
      → (api_server_url : String) (timeout : ℕ) (w : World)
      → EndedInTime (verify_oauth_server_readiness cluster api_server_url timeout w).0
  unfolding verify_oauth_server_readiness
  verify_oauth_server_readiness-EndedInTime clock api_server_url timeout w =
      first (wait_for_oauth_pod_readiness cluster timeout w)
        (wait_for_oauth_pod_readiness-ne-out_of_fuel cluster clock timeout w)
    where
      second :
          (answer : Result OauthError (Unit {0}) × World)
          → answer.0 ≢ err out_of_fuel
          → EndedInTime (rewrap well_known_endpoint answer).0
      second (ok _, w') h = tt
      second (err e, w') h = λ k. h (ap err k)

      first :
          (answer : Result OauthError (Unit {0}) × World)
          → answer.0 ≢ err out_of_fuel
          → EndedInTime
              (proceed
                (λ _.
                  within well_known_endpoint
                    (wait_for_oauth_well_known_endpoint cluster api_server_url timeout))
                (rewrap pod_readiness answer)).0
      first (ok _, w') h =
          second (wait_for_oauth_well_known_endpoint cluster api_server_url timeout w')
            (wait_for_endpoint-ne-out_of_fuel cluster clock api_server_url timeout w')
      first (err e, w') h = λ k. h (ap err k)
