-- ===== src/Verifiers/Rhobs/Token/Granted.antt =====
-- When getOIDCAccessToken of pkg/verifiers/rhobs.go returns a token.
use openshift_online_rosa_e.Base.{
  ℕ, suc, String, ◌≡◌, ◌↔◌, ◌⊎◌, inl, inr, ◌≤◌, List, [], ◌∷◌, leb, eqb, eqb_iff, Result, ok, err,
  none, some, wrap, Bool-cases, Option-cases, arith, true, false, clash,
}
use openshift_online_rosa_e.Base.Io.{Io}
use openshift_online_rosa_e.Verifiers.Conditions.{ApiError}
use openshift_online_rosa_e.Verifiers.Http.{Response}
use openshift_online_rosa_e.Verifiers.Rhobs.{
  RhobsConfig, RhobsError, RhobsWorld, decoding, server_error, attempt_failed,
}
use openshift_online_rosa_e.Verifiers.Rhobs.Token.{
  token_form, judge_response, judge_answer, attempt, finish, give_up, try_again, token_loop,
  get_oidc_access_token,
}

module _ {World : Type 0} (outside : RhobsWorld World) (cfg : RhobsConfig) where
  -- The response was 200 and carries the token, or it was a failure of the server and `Later` holds.
  abbrev pub GrantedBy : (World → Type 0) → String → Result ApiError Response × World → Type 0
  GrantedBy Later token (err e, w) = Later w
  GrantedBy Later token (ok response, w) =
      ((response.status ≡ 200) × (outside.unmarshal_token response.body ≡ ok token))
      ⊎ ((500 ≤ response.status) × Later w)

  -- The token comes with the next answer, or after a failed request or a failure of the server, and the
  -- delay, with a later one.
  abbrev pub GrantedAfter : List ℕ → String → World → Type 0
  GrantedAfter [] token w =
      GrantedBy (λ v. ⊥) token (outside.post_form cfg.oidc_issuer_url (token_form cfg) w)
  GrantedAfter (delay ∷ left) token w =
      GrantedBy (λ v. GrantedAfter left token (outside.sleep delay v)) token
        (outside.post_form cfg.oidc_issuer_url (token_form cfg) w)

  wrap-ok :
      (r : Result ApiError String) (token : String) → (wrap decoding r ≡ ok token) ↔ (r ≡ ok token)
  wrap-ok (ok a) token = ground arith
  wrap-ok (err e) token = (λ h. cc, λ h. cc)

  module _ (token : String) (next : RhobsError → Io RhobsError World String)
      (Later : World → Type 0)
      (continues : (e : RhobsError) (v : World) → ((next e v).0 ≡ ok token) ↔ Later v) where
    response_iff :
        (number : ℕ) (response : Response) (w : World)
        → ((finish outside cfg next (judge_response outside cfg number response, w)).0 ≡ ok token)
          ↔ GrantedBy Later token (ok response, w)
    response_iff number response w = elim (Bool-cases (leb 500 response.status)) [
      | inl failure ↦
          let rest = continues (server_error number response) w in
          rw failure (
            (
              λ h. inr (ground arith, rest.0 h),
              elim [
                | inl granted ↦ absurd (omega (arith, granted.0, large failure))
                | inr later ↦ rest.1 later.1
              ],
            ))
      | inr answered ↦ elim (Bool-cases (eqb response.status 200)) [
        | inl fine ↦
            let decoded = wrap-ok (outside.unmarshal_token response.body) token in
            rw (answered, fine)
              ((
                λ h. inl ((eqb_iff response.status 200).0 fine, decoded.0 h),
                elim [
                  | inl granted ↦ decoded.1 granted.1
                  | inr later ↦ absurd (small answered later.0)
                ],
              ))
        | inr other ↦
            rw (answered, other)
              ((
                λ h. cc,
                elim [
                  | inl granted ↦ clash ((eqb_iff response.status 200).1 granted.0) other
                  | inr later ↦ absurd (small answered later.0)
                ],
              ))
      ]
    ]
      where
        large : leb 500 response.status ≡ true → 500 ≤ response.status
        large h = ground arith

        small : leb 500 response.status ≡ false → 500 ≤ response.status → ⊥
        small h k = ground arith

    answer_iff :
        (number : ℕ) (answer : Result ApiError Response × World)
        → ((finish outside cfg next (judge_answer outside cfg number answer)).0 ≡ ok token)
          ↔ GrantedBy Later token answer
    answer_iff number (err e, w) = continues (attempt_failed number e) w
    answer_iff number (ok response, w) = response_iff number response w

    attempt_iff :
        outside.new_request cfg.oidc_issuer_url ≡ none
        → (number : ℕ) (w : World)
        → ((finish outside cfg next (attempt outside cfg number w)).0 ≡ ok token)
          ↔ GrantedBy Later token (outside.post_form cfg.oidc_issuer_url (token_form cfg) w)
    unfolding attempt
    attempt_iff allowed number w =
        rw allowed (answer_iff number (outside.post_form cfg.oidc_issuer_url (token_form cfg) w))

  token_loop_iff :
      outside.new_request cfg.oidc_issuer_url ≡ none
      → (token : String) (left : List ℕ) (number : ℕ) (w : World)
      → ((token_loop outside cfg left number w).0 ≡ ok token) ↔ GrantedAfter left token w
  unfolding token_loop
  token_loop_iff allowed token [] number w =
      attempt_iff token (give_up outside cfg) (λ v. ⊥) (λ e v. (λ h. cc, λ h. absurd h)) allowed
        number w
  token_loop_iff allowed token (delay ∷ left) number w =
      attempt_iff token (try_again outside cfg delay (token_loop outside cfg left (suc number)))
        (λ v. GrantedAfter left token (outside.sleep delay v))
        (λ e v. token_loop_iff allowed token left (suc number) (outside.sleep delay v)) allowed
        number w

  refused :
      {e : ApiError}
      → outside.new_request cfg.oidc_issuer_url ≡ some e
      → (token : String) (w : World) → (get_oidc_access_token outside cfg w).0 ≡ ok token
      → ⊥
  unfolding get_oidc_access_token token_loop attempt
  refused h token w k = cc (rw h at k)

  -- getOIDCAccessToken returns a token exactly when the request can be made and one of at most four
  -- attempts was answered 200 with that token, where each attempt before it failed to get an answer or got
  -- a failure of the server (500 or more), and was followed by its delay, of 5, 10 and 20 seconds.
  pub get_oidc_access_token_iff :
      (token : String) (w : World)
      → ((get_oidc_access_token outside cfg w).0 ≡ ok token) ↔ (
          (outside.new_request cfg.oidc_issuer_url ≡ none)
          × GrantedAfter (5 ∷ 10 ∷ 20 ∷ []) token w)
  unfolding get_oidc_access_token
  get_oidc_access_token_iff token w =
      elim (Option-cases (outside.new_request cfg.oidc_issuer_url)) [
        | inl allowed ↦
            let looped = token_loop_iff allowed token (5 ∷ 10 ∷ 20 ∷ []) 1 w in
            (λ h. (allowed, looped.0 h), λ h. looped.1 h.1)
        | inr (e, not_allowed) ↦
            (λ h. absurd (refused not_allowed token w h), λ h. cc (h.0, not_allowed))
      ]
