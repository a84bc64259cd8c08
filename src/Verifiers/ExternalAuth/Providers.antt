-- ===== src/Verifiers/ExternalAuth/Providers.antt =====
-- When VerifyExternalAuthProviders of pkg/verifiers/external_auth.go passes.
use openshift_online_rosa_e.Base.{
  String, ◌≡◌, ◌≢◌, refl, ◌↔◌, Bool, true, false, ◌==◌, eq_iff, List, [], ◌∷◌, All, Result, ok, err,
  Option, none, some, Bool-cases, inl, inr, Result-cases, OkAnd, clash,
}
use openshift_online_rosa_e.Base.Io.{proceed, each}
use openshift_online_rosa_e.Base.Text.{has_prefix, to_lower}
use openshift_online_rosa_e.Base.Text.Laws.{has_prefix_iff}
use openshift_online_rosa_e.Verifiers.Conditions.{ApiError}
use openshift_online_rosa_e.Verifiers.ExternalAuth.{
  Issuer, ProviderError, Provider, ProviderStatus, AuthWorld, judge_state, judge_status,
  judge_audiences, judge_issuer, validate_external_auth_provider, validate, each_provider,
  read_providers, if_enabled, read_config, verify_external_auth_providers,
}
use Prim.Native.String.{◌++◌ as ◌<>◌}

-- Neither error nor failed, in any case of the letters
abbrev pub NotFailedState : Option String → Type 0
NotFailedState none = Unit
NotFailedState (some state) = (to_lower state ≢ "error") × (to_lower state ≢ "failed")

abbrev pub NotFailed : Option ProviderStatus → Type 0
NotFailed none = Unit
NotFailed (some status) = NotFailedState status.state

-- An https address, and an audience
abbrev pub IsUsable : Option Issuer → Type 0
IsUsable none = ⊥
IsUsable (some issuer) = ((r : String) × (issuer.url ≡ "https://" <> r)) × (issuer.audiences ≢ [])

pub record WellFormed (p : Provider) : Type 0 where
  pub usable : IsUsable p.issuer
  pub not_failed : NotFailed p.status

judge_state_iff :
    (message : String) (state : Option String)
    → (judge_state message state ≡ ok tt) ↔ NotFailedState state
judge_state_iff message none = (λ _. tt, λ _. refl)
judge_state_iff message (some state) = elim (Bool-cases (to_lower state == "error")) [
  | inl failed ↦ rw failed ((λ h. cc, λ h. absurd (h.0 ((eq_iff _ _).0 failed))))
  | inr well ↦ elim (Bool-cases (to_lower state == "failed")) [
    | inl failed ↦ rw (well, failed) ((λ h. cc, λ h. absurd (h.1 ((eq_iff _ _).0 failed))))
    | inr fine ↦
        rw (well, fine)
          ((
            λ h. (λ e. clash ((eq_iff _ _).1 e) well, λ e. clash ((eq_iff _ _).1 e) fine),
            λ h. refl,
          ))
  ]
]

judge_status_iff :
    (status : Option ProviderStatus) → (judge_status status ≡ ok tt) ↔ NotFailed status
judge_status_iff none = (λ _. tt, λ _. refl)
judge_status_iff (some status) = judge_state_iff status.message status.state

judge_audiences_iff :
    (audiences : List String) (status : Option ProviderStatus)
    → (judge_audiences audiences status ≡ ok tt) ↔ ((audiences ≢ []) × NotFailed status)
judge_audiences_iff [] status = (λ h. cc, λ h. absurd (h.0 refl))
judge_audiences_iff (audience ∷ audiences) status =
    (λ h. (λ e. cc, (judge_status_iff status).0 h), λ h. (judge_status_iff status).1 h.1)

judge_issuer_iff :
    (issuer : Option Issuer) (status : Option ProviderStatus)
    → (judge_issuer issuer status ≡ ok tt) ↔ (IsUsable issuer × NotFailed status)
judge_issuer_iff none status = (λ h. cc, λ h. absurd (h.0))
judge_issuer_iff (some issuer) status =
    let https = has_prefix_iff issuer.url "https://" in
    let rest = judge_audiences_iff issuer.audiences status in
    elim (Bool-cases (has_prefix issuer.url "https://")) [
      | inl secure ↦
          rw secure
            ((λ h. ((https.0 secure, (rest.0 h).0), (rest.0 h).1), λ h. rest.1 (h.0.1, h.1)))
      | inr plain ↦ rw plain ((λ h. cc, λ h. clash (https.1 h.0.0) plain))
    ]

-- A provider is valid exactly when it is well-formed.
pub validate_external_auth_provider_iff :
    (p : Provider) → (validate_external_auth_provider p ≡ ok tt) ↔ WellFormed p
unfolding validate_external_auth_provider
validate_external_auth_provider_iff p =
    let judged = judge_issuer_iff p.issuer p.status in
    (
      λ h. record { usable = (judged.0 h).0; not_failed = (judged.0 h).1 },
      λ h. judged.1 (h.usable, h.not_failed),
    )

module _ {World : Type 0} (outside : AuthWorld World) where
  each-validate_iff :
      (providers : List Provider) (w : World)
      → ((each (validate outside) providers w).0 ≡ ok tt) ↔ All WellFormed providers
  unfolding each
  each-validate_iff [] w = (λ _. tt, λ _. refl)
  each-validate_iff (p ∷ providers) w = elim (Result-cases (validate_external_auth_provider p)) [
    | inl (tt, e) ↦ rw e (
        (
          λ h. ((validate_external_auth_provider_iff p).0 e, (each-validate_iff providers w).0 h),
          λ h. (each-validate_iff providers w).1 h.1,
        ))
    | inr (e, k) ↦
        rw k ((λ h. cc, λ h. absurd (failed k ((validate_external_auth_provider_iff p).1 h.0))))
  ]
    where
      failed :
          {e : ProviderError}
          → validate_external_auth_provider p ≡ err e
          → validate_external_auth_provider p ≡ ok tt
          → ⊥
      failed h k = cc

  each_provider_iff :
      (providers : List Provider) (w : World)
      → ((each_provider outside (validate outside) providers w).0 ≡ ok tt)
        ↔ ((providers ≢ []) × All WellFormed providers)
  unfolding each_provider
  each_provider_iff [] w = (λ h. cc, λ h. absurd (h.0 refl))
  each_provider_iff (p ∷ providers) w = (
    λ h. (λ e. cc, (each-validate_iff (p ∷ providers) w).0 h),
    λ h. (each-validate_iff (p ∷ providers) w).1 h.1,
  )

  listed_iff :
      (answer : Result ApiError (List Provider) × World)
      → ((proceed (each_provider outside (validate outside)) (read_providers outside answer)).0
          ≡ ok tt)
        ↔ OkAnd (λ providers. (providers ≢ []) × All WellFormed providers) answer.0
  listed_iff (ok providers, w) = each_provider_iff providers w
  listed_iff (err e, w) = (λ h. cc, λ h. absurd h)

  -- The configuration is enabled, and the list that is asked for next is of well-formed providers.
  abbrev pub EnabledAndListed : Result ApiError Bool × World → Type 0
  EnabledAndListed (err e, w) = ⊥
  EnabledAndListed (ok false, w) = ⊥
  EnabledAndListed (ok true, w) =
      OkAnd (λ providers. (providers ≢ []) × All WellFormed providers)
        (outside.list_external_auths w).0

  configured_iff :
      (answer : Result ApiError Bool × World)
      → ((proceed (if_enabled outside) (read_config outside answer)).0 ≡ ok tt)
        ↔ EnabledAndListed answer
  configured_iff (err e, w) = (λ h. cc, λ h. absurd h)
  configured_iff (ok false, w) = (λ h. cc, λ h. absurd h)
  configured_iff (ok true, w) = listed_iff (outside.list_external_auths w)

  -- The check passes exactly when the configuration was read and is enabled, and the providers were
  -- listed, there is one, and each has an issuer with an https address and an audience, and a state of its
  -- status, where it has a status with a state, that is neither error nor failed in any case of the
  -- letters.
  pub verify_external_auth_providers_iff :
      (w : World)
      → ((verify_external_auth_providers outside w).0 ≡ ok tt)
        ↔ EnabledAndListed (outside.get_config w)
  unfolding verify_external_auth_providers
  verify_external_auth_providers_iff w = configured_iff (outside.get_config w)
