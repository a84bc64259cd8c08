-- ===== src/Verifiers/Rhobs/Token.antt =====
-- pkg/verifiers/rhobs.go: getOIDCAccessToken, with its retries.
pub mod Granted
pub mod Bounds
use openshift_online_rosa_e.Base.{
  ℕ, suc, String, not, List, [], ◌∷◌, leb, eqb, if◌then◌else◌, Result, ok, err, Option, none, some,
  wrap, length,
}
use openshift_online_rosa_e.Base.Io.{Io, raise}
use openshift_online_rosa_e.Verifiers.Conditions.{ApiError}
use openshift_online_rosa_e.Verifiers.Http.{Response}
use openshift_online_rosa_e.Verifiers.Rhobs.{
  RhobsConfig, RhobsError, RhobsWorld, attempt_failed, server_error, bad_status, decoding,
  creating_request, after_attempts,
}

-- In seconds
abbrev pub delays : List ℕ
delays = 5 ∷ 10 ∷ 20 ∷ []

-- What a round of the loop comes to: `lastErr` and another round, or a return
pub data Attempt : Type 0 where
  retry : RhobsError → Attempt
  return_token : Result RhobsError String → Attempt

abbrev pub token_form : RhobsConfig → List (String × String)
token_form cfg =
    ("grant_type", "client_credentials")
    ∷ ("client_id", cfg.oidc_client_id)
    ∷ ("client_secret", cfg.oidc_client_secret)
    ∷ []

module _ {World : Type 0} (outside : RhobsWorld World) (cfg : RhobsConfig) where
  abbrev pub judge_response : ℕ → Response → Attempt
  judge_response number response =
      if leb 500 response.status
      then retry (server_error number response)
      else if not (eqb response.status 200)
      then return_token (err (bad_status response))
      else return_token (wrap decoding (outside.unmarshal_token response.body))

  abbrev pub judge_answer : ℕ → Result ApiError Response × World → Attempt × World
  judge_answer number (err e, w) = (retry (attempt_failed number e), w)
  judge_answer number (ok response, w) = (judge_response number response, w)

  abbrev pub send : ℕ → Option ApiError → World → Attempt × World
  send number (some e) w = (return_token (err (creating_request e)), w)
  send number none w =
      judge_answer number (outside.post_form cfg.oidc_issuer_url (token_form cfg) w)

  -- The body of the loop, for the attempt of this number
  unfoldable pub attempt : ℕ → World → Attempt × World
  attempt number = send number (outside.new_request cfg.oidc_issuer_url)

  -- The end of a round: it goes on after an error that is retried, or returns.
  abbrev pub finish :
      (RhobsError → Io RhobsError World String) → Attempt × World → Result RhobsError String × World
  finish next (retry e, w) = next e w
  finish next (return_token r, w) = (r, w)

  -- After the attempt that no delay follows
  abbrev pub give_up : RhobsError → Io RhobsError World String
  give_up e = raise (after_attempts (suc (length delays)) e)

  abbrev pub try_again : ℕ → Io RhobsError World String → RhobsError → Io RhobsError World String
  try_again delay rest e w = rest (outside.sleep delay w)

  -- The loop, over the delays that are left, from the attempt of this number
  unfoldable pub token_loop : List ℕ → ℕ → Io RhobsError World String
  unfolding attempt
  token_loop [] number w = finish give_up (attempt number w)
  token_loop (delay ∷ left) number w =
      finish (try_again delay (token_loop left (suc number))) (attempt number w)

  -- `getOIDCAccessToken`
  unfoldable pub get_oidc_access_token : Io RhobsError World String
  unfolding token_loop
  get_oidc_access_token = token_loop delays 1
