-- ===== src/Verifiers/Rhobs/Probes/Queried.antt =====
-- What queryRHOBSProbes of pkg/verifiers/rhobs.go returns.
use openshift_online_rosa_e.Base.{
  String, ◌≡◌, refl, ◌↔◌, ◌⊎◌, inl, inr, eqb, eqb_iff, List, Result, ok, err, Option, none, some,
  Bool-cases, arith, clash, sym, ap, ◌∙◌,
}
use openshift_online_rosa_e.Base.Io.{proceed, rewrap}
use openshift_online_rosa_e.Base.Io.Laws.{within-bind-ok}
use openshift_online_rosa_e.Verifiers.Conditions.{ApiError}
use openshift_online_rosa_e.Verifiers.Http.{Response}
use openshift_online_rosa_e.Verifiers.Rhobs.{
  RhobsProbe, RhobsConfig, RhobsError, RhobsWorld, getting_token,
}
use openshift_online_rosa_e.Verifiers.Rhobs.Token.{get_oidc_access_token}
use openshift_online_rosa_e.Verifiers.Rhobs.Probes.{
  probes_url, or_wrapped, or_decode_wrapped, decode_probes, read_probes, send, get_probes,
  query_rhobs_probes,
}

module _ {World : Type 0} (outside : RhobsWorld World) (cfg : RhobsConfig) where
  -- The body is a list of probes, or else an object with one.
  abbrev pub DecodesTo : String → List RhobsProbe → Type 0
  DecodesTo body probes =
      (outside.unmarshal_probes body ≡ ok probes)
      ⊎ ((e : ApiError) × (outside.unmarshal_probes body ≡ err e)
          × (outside.unmarshal_wrapper body ≡ ok probes))

  -- The answer was 200, read to its end, and decodes to the probes.
  abbrev pub AnswersWith : Result ApiError Response × World → List RhobsProbe → Type 0
  AnswersWith (err e, w) probes = ⊥
  AnswersWith (ok response, w) probes =
      (response.status ≡ 200) × (response.read_error ≡ none) × DecodesTo response.body probes

  wrapped_iff :
      (first : ApiError) (r : Result ApiError (List RhobsProbe)) (probes : List RhobsProbe)
      → (or_wrapped outside cfg first r ≡ ok probes) ↔ (r ≡ ok probes)
  wrapped_iff first (ok found) probes = ground arith
  wrapped_iff first (err e) probes = (λ h. cc, λ h. cc)

  either_iff :
      (body : String) (r : Result ApiError (List RhobsProbe)) (probes : List RhobsProbe)
      → (or_decode_wrapped outside cfg body r ≡ ok probes) ↔ (
          (r ≡ ok probes)
          ⊎ ((e : ApiError) × (r ≡ err e) × (outside.unmarshal_wrapper body ≡ ok probes)))
  either_iff body (ok found) probes =
      (λ h. inl (ground arith), elim [ inl h ↦ ground arith | inr h ↦ cc (h.1) ])
  either_iff body (err e) probes =
      let wrapped = wrapped_iff e (outside.unmarshal_wrapper body) probes in
      (λ h. inr (e, refl, wrapped.0 h), elim [ inl h ↦ cc h | inr h ↦ wrapped.1 h.2 ])

  decoded_iff :
      (body : String) (read_error : Option ApiError) (probes : List RhobsProbe)
      → (decode_probes outside cfg body read_error ≡ ok probes)
        ↔ ((read_error ≡ none) × DecodesTo body probes)
  decoded_iff body (some e) probes = (λ h. cc, λ h. cc (h.0))
  decoded_iff body none probes =
      let either = either_iff body (outside.unmarshal_probes body) probes in
      (λ h. (refl, either.0 h), λ h. either.1 h.1)

  read_iff :
      (answer : Result ApiError Response × World) (probes : List RhobsProbe)
      → ((read_probes outside cfg answer).0 ≡ ok probes) ↔ AnswersWith answer probes
  read_iff (err e, w) probes = (λ h. cc, λ h. absurd h)
  read_iff (ok response, w) probes = elim (Bool-cases (eqb response.status 200)) [
    | inl fine ↦
        let decoded = decoded_iff response.body response.read_error probes in
        rw fine (
          (
            λ h. ((eqb_iff response.status 200).0 fine, (decoded.0 h).0, (decoded.0 h).1),
            λ h. decoded.1 (h.1, h.2),
          ))
    | inr other ↦ rw other ((λ h. cc, λ h. clash ((eqb_iff response.status 200).1 h.0) other))
  ]

  send_iff :
      (url token : String) (allowed : Option ApiError) (w : World) (probes : List RhobsProbe)
      → ((send outside cfg url token allowed w).0 ≡ ok probes)
        ↔ ((allowed ≡ none) × AnswersWith (outside.get (some token) url w) probes)
  send_iff url token (some e) w probes = (λ h. cc, λ h. cc (h.0))
  send_iff url token none w probes =
      let answered = read_iff (outside.get (some token) url w) probes in
      (λ h. (refl, answered.0 h), λ h. answered.1 h.1)

  -- queryRHOBSProbes returns these probes exactly when the access token was granted and the request with
  -- it, for the address of the selector, was answered with status 200 and a body that was read to its end
  -- and is a list of these probes or, where it is no such list, an object with that list.
  pub query_rhobs_probes_iff :
      (label_selector : String) (w : World) (probes : List RhobsProbe)
      → ((query_rhobs_probes outside cfg label_selector w).0 ≡ ok probes) ↔ (
          (token : String) × ((get_oidc_access_token outside cfg w).0 ≡ ok token)
          × (outside.new_request (probes_url cfg label_selector) ≡ none)
          × AnswersWith
              (outside.get
                (some token)
                (probes_url cfg label_selector)
                (get_oidc_access_token outside cfg w).1)
              probes)
  unfolding query_rhobs_probes
  query_rhobs_probes_iff label_selector w probes = (
    λ h.
        let (token, granted, same) =
          within-bind-ok getting_token (get_oidc_access_token outside cfg)
            (get_probes outside cfg (probes_url cfg label_selector)) w h in
        let sent =
          (send_iff (probes_url cfg label_selector) token
              (outside.new_request (probes_url cfg label_selector))
              (get_oidc_access_token outside cfg w).1 probes).0
            (sym (ap (λ p. p.0) same) ∙ h) in
        (token, granted, sent.0, sent.1),
    λ h.
        granted_then (get_oidc_access_token outside cfg w) h.0 h.1
        ∙ (send_iff (probes_url cfg label_selector) h.0
              (outside.new_request (probes_url cfg label_selector))
              (get_oidc_access_token outside cfg w).1 probes).1
            (h.2, h.3),
  )
    where
      granted_then :
          (p : Result RhobsError String × World) (token : String)
          → p.0 ≡ ok token
          → (proceed
              (get_probes outside cfg (probes_url cfg label_selector))
              (rewrap getting_token p)).0
            ≡ (get_probes outside cfg (probes_url cfg label_selector) token p.1).0
      granted_then (ok t, v) token e =
          ap (λ s. (get_probes outside cfg (probes_url cfg label_selector) s v).0) (ground arith)
      granted_then (err f, v) token e = cc
