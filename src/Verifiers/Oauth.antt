-- ===== src/Verifiers/Oauth.antt =====
-- pkg/verifiers/oauth_readiness.go: two polling loops, over a world that the API server, the endpoint,
-- the clock and the context change. Times and durations are numbers of one unit.
pub mod Ready
pub mod Success
use Prim.Native.Nat.{◌/◌}
use openshift_online_rosa_e.Base.{
  ℕ, zero, suc, ◌+◌, String, ◌<>◌, Bool, true, false, List, [], ◌∷◌, all, eqb, ltb, if◌then◌else◌,
  Result, ok, err, Option, none, some,
}
use openshift_online_rosa_e.Base.Io.{Io, pure, proceed, ◌>>◌, within}
use openshift_online_rosa_e.Base.Text.{trim_slashes}
use openshift_online_rosa_e.Verifiers.Conditions.{ApiError}

-- A pod: whether each of its containers is ready
abbrev pub Pod : Type 0
Pod = List Bool

pub data OauthError : Type 0 where
  timed_out_pods timed_out_endpoint : OauthError
  listing_pods creating_request : ApiError → OauthError
  context_done : ApiError → OauthError
  pod_readiness well_known_endpoint : OauthError → OauthError
  -- The rounds of the model were used up. No run of the code ends so.
  out_of_fuel : OauthError

pub record OauthCluster (World : Type 0) : Type 0 where
  pub now : World → ℕ
  pub list_pods : World → Result ApiError (List Pod) × World
  -- `http.NewRequestWithContext`, which reads nothing but the text
  pub new_request : String → Option ApiError
  -- `client.Do`: the status of the response
  pub get_status : String → World → Result ApiError ℕ × World
  -- `none` when the timer fired, the context's error when that was first
  pub sleep : ℕ → World → Option ApiError × World

-- In seconds
abbrev pub pod_poll_interval : ℕ
pod_poll_interval = 15

abbrev pub endpoint_poll_interval : ℕ
endpoint_poll_interval = 10

-- `isPodContainersReady`
unfoldable pub is_pod_containers_ready : Pod → Bool
is_pod_containers_ready [] = false
is_pod_containers_ready (ready ∷ statuses) = all (λ b. b) (ready ∷ statuses)

-- Both branches of the round on pods: with none listed it waits, as with one that is not ready.
unfoldable pub are_pods_ready : List Pod → Bool
unfolding is_pod_containers_ready
are_pods_ready [] = false
are_pods_ready (pod ∷ pods) = all is_pod_containers_ready (pod ∷ pods)

module _ {World : Type 0} (cluster : OauthCluster World) where
  abbrev pub woken : Option ApiError × World → Result OauthError (Unit {0}) × World
  woken (none, w) = (ok tt, w)
  woken (some e, w) = (err (context_done e), w)

  abbrev pub pause : ℕ → Io OauthError World (Unit {0})
  pause interval w = woken (cluster.sleep interval w)

  abbrev pub again : ℕ → Io OauthError World (Unit {0}) → Bool → Io OauthError World (Unit {0})
  again interval rest true = pure tt
  again interval rest false = pause interval >> rest

  -- A round of either loop, in front of the rest of the loop
  unfoldable pub round :
      ℕ
      → ℕ
      → OauthError
      → Io OauthError World Bool
      → Io OauthError World (Unit {0})
      → Io OauthError World (Unit {0})
  round deadline interval late attempt rest w =
      if ltb deadline (cluster.now w)
      then (err late, w)
      else proceed (again interval rest) (attempt w)

  unfoldable pub poll :
      ℕ → ℕ → ℕ → OauthError → Io OauthError World Bool → Io OauthError World (Unit {0})
  poll zero deadline interval late attempt w = (err out_of_fuel, w)
  poll (suc rounds) deadline interval late attempt w =
      round deadline interval late attempt (poll rounds deadline interval late attempt) w

  abbrev pub read_pods : Result ApiError (List Pod) × World → Result OauthError Bool × World
  read_pods (ok pods, w) = (ok (are_pods_ready pods), w)
  read_pods (err e, w) = (err (listing_pods e), w)

  abbrev pub list_ready : Io OauthError World Bool
  list_ready w = read_pods (cluster.list_pods w)

  -- `waitForOAuthPodReadiness`
  unfoldable pub wait_for_oauth_pod_readiness : ℕ → Io OauthError World (Unit {0})
  wait_for_oauth_pod_readiness timeout w =
      poll (suc (suc (timeout / pod_poll_interval))) (cluster.now w + timeout) pod_poll_interval
        timed_out_pods list_ready w

  -- A request that fails is a response that is not 200.
  abbrev pub read_status : Result ApiError ℕ × World → Result OauthError Bool × World
  read_status (ok status, w) = (ok (eqb status 200), w)
  read_status (err e, w) = (ok false, w)

  abbrev pub send : String → Option ApiError → Io OauthError World Bool
  send endpoint (some e) w = (err (creating_request e), w)
  send endpoint none w = read_status (cluster.get_status endpoint w)

  abbrev pub probe : String → Io OauthError World Bool
  probe endpoint = send endpoint (cluster.new_request endpoint)

  abbrev pub endpoint_of : String → String
  endpoint_of api_server_url =
      trim_slashes api_server_url <> "/.well-known/oauth-authorization-server"

  -- `waitForOAuthWellKnownEndpoint`
  unfoldable pub wait_for_oauth_well_known_endpoint : String → ℕ → Io OauthError World (Unit {0})
  wait_for_oauth_well_known_endpoint api_server_url timeout w =
      poll (suc (suc (timeout / endpoint_poll_interval))) (cluster.now w + timeout)
        endpoint_poll_interval timed_out_endpoint (probe (endpoint_of api_server_url)) w

  -- `VerifyOAuthServerReadiness`
  unfoldable pub verify_oauth_server_readiness : String → ℕ → Io OauthError World (Unit {0})
  verify_oauth_server_readiness api_server_url timeout =
      within pod_readiness (wait_for_oauth_pod_readiness timeout)
      >> within well_known_endpoint (wait_for_oauth_well_known_endpoint api_server_url timeout)
