-- ===== src/Verifiers/ExternalAuth/Reachable.antt =====
-- When VerifyExternalAuthIssuerReachable of pkg/verifiers/external_auth.go passes.
use openshift_online_rosa_e.Base.{
  String, ◌≡◌, ◌≢◌, refl, ◌↔◌, ◌==◌, eqb, eqb_iff, eq_iff, List, [], ◌∷◌, Result, ok, err, Option,
  none, some, Bool-cases, inl, inr, OkAnd, clash,
}
use openshift_online_rosa_e.Base.Io.{Io, proceed, rewrap, within, each, ◌>>=◌}
use openshift_online_rosa_e.Base.Io.Laws.{proceed-rewrap-proceed}
use openshift_online_rosa_e.Verifiers.Conditions.{ApiError}
use openshift_online_rosa_e.Verifiers.Http.{Response, Answered}
use openshift_online_rosa_e.Verifiers.ExternalAuth.{
  Issuer, Provider, ProbeError, AuthError, AuthWorld, discovery_url, decoded, read_response, send,
  get_json, require_keys, fetch_keys, probe_oidc_issuer, probe_issuer, probe_provider,
  read_providers, each_provider, verify_external_auth_issuer_reachable, fetching_jwks,
  fetching_discovery, unreachable,
}

module _ {World : Type 0} (outside : AuthWorld World) where
  -- The keys of an issuer are published at this address, and then `Next` holds.
  abbrev pub KeysAt : (World → Type 0) → String → World → Type 0
  KeysAt Next uri w =
      (uri ≢ "")
      × (outside.new_request uri ≡ none)
      × Answered outside.unmarshal_jwks (λ keys v. (keys ≢ []) × Next v) (outside.get uri w)

  -- The issuer's discovery document names an address at which it publishes keys.
  abbrev pub Publishes : String → (World → Type 0) → World → Type 0
  Publishes issuer Next w =
      (outside.new_request (discovery_url issuer) ≡ none)
      × Answered outside.unmarshal_discovery (KeysAt Next) (outside.get (discovery_url issuer) w)

  abbrev pub IssuerPublishes : Option Issuer → (World → Type 0) → World → Type 0
  IssuerPublishes none Next w = ⊥
  IssuerPublishes (some issuer) Next w = (issuer.url ≢ "") × Publishes issuer.url Next w

  -- All of them, one after the other
  abbrev pub AllPublish : List Provider → World → Type 0
  AllPublish [] w = Unit
  AllPublish (p ∷ providers) w = IssuerPublishes p.issuer (AllPublish providers) w

  module _ {A : Type 0} (unmarshal : String → Result ApiError A) {E F : Type 0} (f : ProbeError → E)
      (k : A → Io E World F) {ends : F} (P : A → World → Type 0)
      (continues : (a : A) (v : World) → ((k a v).0 ≡ ok ends) ↔ P a v) where
    decoded_iff :
        (r : Result ApiError A) (v : World)
        → ((proceed k (rewrap f (decoded outside unmarshal r v))).0 ≡ ok ends)
          ↔ OkAnd (λ a. P a v) r
    decoded_iff (ok a) v = continues a v
    decoded_iff (err e) v = (λ h. cc, λ h. absurd h)

    read_response_iff :
        (url : String) (answer : Result ApiError Response × World)
        → ((proceed k (rewrap f (read_response outside unmarshal url answer))).0 ≡ ok ends)
          ↔ Answered unmarshal P answer
    read_response_iff url (err e, v) = (λ h. cc, λ h. absurd h)
    read_response_iff url (ok response, v) = elim (Bool-cases (eqb response.status 200)) [
      | inl fine ↦
          let rest = decoded_iff (unmarshal response.body) v in
          rw fine ((λ h. ((eqb_iff response.status 200).0 fine, rest.0 h), λ h. rest.1 h.1))
      | inr other ↦ rw other ((λ h. cc, λ h. clash ((eqb_iff response.status 200).1 h.0) other))
    ]

    send_iff :
        (url : String) (refused : Option ApiError) (w : World)
        → ((proceed k (rewrap f (send outside unmarshal url refused w))).0 ≡ ok ends)
          ↔ ((refused ≡ none) × Answered unmarshal P (outside.get url w))
    send_iff url (some e) w = (λ h. cc, λ h. cc (h.0))
    send_iff url none w =
        let rest = read_response_iff url (outside.get url w) in
        (λ h. (refl, rest.0 h), λ h. rest.1 h.1)

    -- A request, and what is done with its answer
    get_json_iff :
        (url : String) (w : World)
        → (((within f (get_json outside unmarshal url) >>= k) w).0 ≡ ok ends)
          ↔ ((outside.new_request url ≡ none) × Answered unmarshal P (outside.get url w))
    unfolding get_json
    get_json_iff url w = send_iff url (outside.new_request url) w

  module _ (f : ProbeError → AuthError) (rest : Io AuthError World (Unit {0}))
      (Next : World → Type 0) (continues : (v : World) → ((rest v).0 ≡ ok tt) ↔ Next v) where
    require_keys_iff :
        (uri : String) (keys : List String) (v : World)
        → ((proceed (λ _. rest) (rewrap f (require_keys outside uri keys v))).0 ≡ ok tt)
          ↔ ((keys ≢ []) × Next v)
    require_keys_iff uri [] v = (λ h. cc, λ h. absurd (h.0 refl))
    require_keys_iff uri (key ∷ keys) v =
        (λ h. (λ e. cc, (continues v).0 h), λ h. (continues v).1 h.1)

    fetch_keys_iff :
        (uri : String) (v : World)
        → ((proceed (λ _. rest) (rewrap f (fetch_keys outside uri v))).0 ≡ ok tt)
          ↔ KeysAt Next uri v
    unfolding fetch_keys
    fetch_keys_iff uri v = elim (Bool-cases (uri == "")) [
      | inl missing ↦ rw missing ((λ h. cc, λ h. absurd (h.0 ((eq_iff uri "").0 missing))))
      | inr given ↦
          let fetched =
            get_json_iff outside.unmarshal_jwks (λ e. f (fetching_jwks e))
              (λ keys u. proceed (λ _. rest) (rewrap f (require_keys outside uri keys u)))
              {ends = tt} (λ keys u. (keys ≢ []) × Next u) (require_keys_iff uri) uri v in
          let same =
            proceed-rewrap-proceed (λ _. rest) f (require_keys outside uri) fetching_jwks
              (get_json outside outside.unmarshal_jwks uri v) in
          rw (given, same)
            ((
              λ h. (λ e. clash ((eq_iff uri "").1 e) given, (fetched.0 h).0, (fetched.0 h).1),
              λ h. fetched.1 (h.1, h.2),
            ))
    ]

    probe_oidc_issuer_iff :
        (issuer : String) (w : World)
        → ((proceed (λ _. rest) (rewrap f (probe_oidc_issuer outside issuer w))).0 ≡ ok tt)
          ↔ Publishes issuer Next w
    unfolding probe_oidc_issuer
    probe_oidc_issuer_iff issuer w =
        rw
          (proceed-rewrap-proceed (λ _. rest) f (fetch_keys outside) fetching_discovery
            (get_json outside outside.unmarshal_discovery (discovery_url issuer) w))
          (get_json_iff outside.unmarshal_discovery (λ e. f (fetching_discovery e))
            (λ uri v. proceed (λ _. rest) (rewrap f (fetch_keys outside uri v))) {ends = tt}
            (KeysAt Next) fetch_keys_iff (discovery_url issuer) w)

  probe_issuer_iff :
      (id : String) (rest : Io AuthError World (Unit {0})) (Next : World → Type 0)
      → ((v : World) → ((rest v).0 ≡ ok tt) ↔ Next v)
      → (issuer : Option Issuer) (w : World)
      → ((proceed (λ _. rest) (probe_issuer outside id issuer w)).0 ≡ ok tt)
        ↔ IssuerPublishes issuer Next w
  probe_issuer_iff id rest Next continues none w = (λ h. cc, λ h. absurd h)
  probe_issuer_iff id rest Next continues (some issuer) w = elim (Bool-cases (issuer.url == "")) [
    | inl missing ↦ rw missing ((λ h. cc, λ h. absurd (h.0 ((eq_iff issuer.url "").0 missing))))
    | inr given ↦
        let probed =
          probe_oidc_issuer_iff (unreachable id issuer.url) rest Next continues issuer.url w in
        rw given
          ((λ h. (λ e. clash ((eq_iff issuer.url "").1 e) given, probed.0 h), λ h. probed.1 h.1))
  ]

  each-probe_provider_iff :
      (providers : List Provider) (w : World)
      → ((each (probe_provider outside) providers w).0 ≡ ok tt) ↔ AllPublish providers w
  unfolding each
  each-probe_provider_iff [] w = (λ _. tt, λ _. refl)
  each-probe_provider_iff (p ∷ providers) w =
      probe_issuer_iff p.id (each (probe_provider outside) providers) (AllPublish providers)
        (each-probe_provider_iff providers) p.issuer w

  -- The listing succeeded, with a provider, and all publish.
  abbrev pub ListedAndPublish : Result ApiError (List Provider) × World → Type 0
  ListedAndPublish (err e, w) = ⊥
  ListedAndPublish (ok [], w) = ⊥
  ListedAndPublish (ok (p ∷ providers), w) = AllPublish (p ∷ providers) w

  listed_iff :
      (answer : Result ApiError (List Provider) × World)
      → ((proceed
            (each_provider outside (probe_provider outside))
            (read_providers outside answer)).0
          ≡ ok tt)
        ↔ ListedAndPublish answer
  unfolding each_provider
  listed_iff (err e, w) = (λ h. cc, λ h. absurd h)
  listed_iff (ok [], w) = (λ h. cc, λ h. absurd h)
  listed_iff (ok (p ∷ providers), w) = each-probe_provider_iff (p ∷ providers) w

  -- The probe passes exactly when the providers were listed, there is one, and, one after the other, each
  -- has an issuer address that is not empty, whose discovery document was served with status 200 and names
  -- an address that is not empty, at which a list of keys that is not empty was served with status 200.
  pub verify_external_auth_issuer_reachable_iff :
      (w : World)
      → ((verify_external_auth_issuer_reachable outside w).0 ≡ ok tt)
        ↔ ListedAndPublish (outside.list_external_auths w)
  unfolding verify_external_auth_issuer_reachable
  verify_external_auth_issuer_reachable_iff w = listed_iff (outside.list_external_auths w)
