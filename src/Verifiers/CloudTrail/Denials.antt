-- ===== src/Verifiers/CloudTrail/Denials.antt =====
-- pkg/verifiers/cloudtrail.go: which events are denials, said by the fields of the event and of its JSON.
use openshift_online_rosa_e.Base.{
  String, ◌≡◌, refl, sym, ap, ◌∙◌, ◌⊎◌, inl, inr, ◌↔◌, true, false, not, ◌&&◌, ◌==◌, eq_iff, Option,
  none, some, Bool-cases, Option-cases, false-ne-true, clash, arith,
}
use openshift_online_rosa_e.Base.Text.{contains}
use openshift_online_rosa_e.Unstructured.{Fields, get_map?, get_string?, get_string, and_then}
use openshift_online_rosa_e.Verifiers.CloudTrail.{
  Event, Denied, Trail, is_known_denial, issuer_arn, identity_arn, arn_of, caller_arn_from_event,
  is_denial, denied_by, denial_of, denial,
}

-- The caller's ARN: the identity's own, or else that of its session's issuer
pub data IsCaller (data_of_event : Fields) (arn : String) : Type 0 where
  direct :
      (identity : Fields)
      → get_map? "userIdentity" data_of_event ≡ some identity
      → get_string? "arn" identity ≡ some arn
      → IsCaller data_of_event arn
  issued :
      (identity context issuer : Fields)
      → get_map? "userIdentity" data_of_event ≡ some identity
      → get_string? "arn" identity ≡ none
      → get_map? "sessionContext" identity ≡ some context
      → get_map? "sessionIssuer" context ≡ some issuer
      → get_string? "arn" issuer ≡ some arn
      → IsCaller data_of_event arn

-- The load balancer's listener, deleted by the installer's role
abbrev pub IsKnown : String → Fields → Type 0
IsKnown name event_data =
    (name ≡ "DeleteListener")
    × (arn : String) × IsCaller event_data arn
    × (contains arn "Installer-Role" ≡ true)

-- A text that tells of a denied access
abbrev pub TellsDenial : String → Type 0
TellsDenial s = (contains s "AccessDenied" ≡ true) ⊎ (contains s "UnauthorizedAccess" ≡ true)

-- An event to report: none of its fields is nil, the filter, where there is one, stands in its JSON, which
-- is decoded, its error's code or message tells of a denied access, and it is not the known case.
pub record IsDenied (trail : Trail) (filter_string : String) (event : Event) : Type 0 where
  pub json : String
  pub has_json : event.cloud_trail_event ≡ some json
  pub name : String
  pub has_name : event.event_name ≡ some name
  pub time : String
  pub has_time : event.event_time ≡ some time
  pub filtered : (filter_string ≡ "") ⊎ (contains json filter_string ≡ true)
  pub event_data : Fields
  pub decoded : trail.decode json ≡ some event_data
  pub tells :
      TellsDenial (get_string "errorCode" event_data)
      ⊎ TellsDenial (get_string "errorMessage" event_data)
  pub unknown : IsKnown name event_data → ⊥

is_denial_iff :
    (code message : String)
    → (is_denial code message ≡ true) ↔ (TellsDenial code ⊎ TellsDenial message)
is_denial_iff code message = ground arith

module _ (event_data : Fields) where
  -- An ARN that contains this text is not the empty one.
  issuer_arn-some :
      (found : Option Fields)
      → contains (issuer_arn found) "Installer-Role" ≡ true
      → (issuer : Fields) × (found ≡ some issuer)
        × (arn : String) × (get_string? "arn" issuer ≡ some arn)
        × (contains arn "Installer-Role" ≡ true)
  unfolding get_string contains
  issuer_arn-some none h = false-ne-true h
  issuer_arn-some (some issuer) h = elim (Option-cases (get_string? "arn" issuer)) [
    | inl absent ↦ false-ne-true (rw absent at h)
    | inr (arn, found) ↦ (issuer, refl, arn, found, rw found at h)
  ]

  session_issuer :
      (found : Option Fields) (issuer : Fields)
      → and_then found (get_map? "sessionIssuer") ≡ some issuer
      → (context : Fields) × (found ≡ some context)
        × (get_map? "sessionIssuer" context ≡ some issuer)
  session_issuer none issuer h = cc
  session_issuer (some context) issuer h = (context, refl, h)

  identity_arn-IsCaller :
      (identity : Fields) (own : Option String)
      → get_map? "userIdentity" event_data ≡ some identity
      → get_string? "arn" identity ≡ own
      → contains (identity_arn identity own) "Installer-Role" ≡ true
      → (arn : String) × IsCaller event_data arn × (contains arn "Installer-Role" ≡ true)
  identity_arn-IsCaller identity (some arn) has_identity has_arn h =
      (arn, direct identity has_identity has_arn, h)
  identity_arn-IsCaller identity none has_identity no_arn h =
      let (issuer, found, arn, has_arn, holds) =
        issuer_arn-some (and_then (get_map? "sessionContext" identity) (get_map? "sessionIssuer"))
          h in
      let (context, has_context, has_issuer) =
        session_issuer (get_map? "sessionContext" identity) issuer found in
      (
        arn,
        issued identity context issuer has_identity no_arn has_context has_issuer has_arn,
        holds,
      )

  arn_of-IsCaller :
      (found : Option Fields)
      → get_map? "userIdentity" event_data ≡ found
      → contains (arn_of found) "Installer-Role" ≡ true
      → (arn : String) × IsCaller event_data arn × (contains arn "Installer-Role" ≡ true)
  unfolding contains
  arn_of-IsCaller none absent h = false-ne-true h
  arn_of-IsCaller (some identity) has_identity h =
      identity_arn-IsCaller identity (get_string? "arn" identity) has_identity refl h

  IsCaller-arn : (arn : String) → IsCaller event_data arn → caller_arn_from_event event_data ≡ arn
  unfolding caller_arn_from_event get_string
  IsCaller-arn arn (direct identity has_identity has_arn) = rw (has_identity, has_arn) refl
  IsCaller-arn arn
        (issued identity context issuer has_identity no_arn has_context has_issuer has_arn) =
      rw (has_identity, no_arn, has_context, has_issuer, has_arn) refl

  is_known_denial_iff :
      (name arn : String)
      → (is_known_denial name arn ≡ true)
        ↔ ((name ≡ "DeleteListener") × (contains arn "Installer-Role" ≡ true))
  unfolding is_known_denial
  is_known_denial_iff name arn = elim (Bool-cases ("DeleteListener" == name)) [
    | inl same ↦
        let named = sym ((eq_iff "DeleteListener" name).0 same) in rw same (ground (arith, named))
    | inr differs ↦
        rw differs
          (λ h. false-ne-true h, λ h. clash ((eq_iff "DeleteListener" name).1 (sym h.0)) differs)
  ]

  of_event_iff :
      (name : String)
      → (is_known_denial name (caller_arn_from_event event_data) ≡ true) ↔ IsKnown name event_data
  unfolding caller_arn_from_event
  of_event_iff name =
      let known = is_known_denial_iff name (caller_arn_from_event event_data) in
      (
        λ h.
            let k = known.0 h in
            let (arn, caller, holds) =
              arn_of-IsCaller (get_map? "userIdentity" event_data) refl k.1 in
            (k.0, arn, caller, holds),
        λ h. known.1 (h.0, ap (λ a. contains a "Installer-Role") (IsCaller-arn h.1 h.2) ∙ h.3),
      )

  denied_by-some_iff :
      (name time : String)
      → ((d : Denied) × (denied_by name time event_data ≡ some d)) ↔ (
          (TellsDenial (get_string "errorCode" event_data)
            ⊎ TellsDenial (get_string "errorMessage" event_data))
          × (IsKnown name event_data → ⊥))
  denied_by-some_iff name time =
      let code = get_string "errorCode" event_data in
      let message = get_string "errorMessage" event_data in
      let tells = is_denial_iff code message in
      let known = of_event_iff name in
      elim (Bool-cases (is_denial code message)) [
        | inr harmless ↦ rw harmless (λ h. absurd (nothing h.1), λ h. clash (tells.1 h.0) harmless)
        | inl denial ↦ elim (Bool-cases (is_known_denial name (caller_arn_from_event event_data))) [
          | inl expected ↦
              rw (denial, expected)
                (λ h. absurd (nothing h.1), λ h. absurd (h.1 (known.0 expected)))
          | inr other ↦
              rw (denial, other)
                (λ h. (tells.0 denial, λ k. clash (known.1 k) other), λ h. (_, refl))
        ]
      ]
    where
      nothing : {d : Denied} → Path (Option Denied) none (some d) → ⊥
      nothing h = cc

passed_iff :
    (json filter_string : String)
    → ((not (filter_string == "") && not (contains json filter_string)) ≡ false)
      ↔ ((filter_string ≡ "") ⊎ (contains json filter_string ≡ true))
passed_iff json filter_string = ground (arith, eq_iff filter_string "")

module _ (trail : Trail) (filter_string : String) where
  decoded_denial :
      (name time : String) (found : Option Fields) (d : Denied)
      → and_then found (denied_by name time) ≡ some d
      → (event_data : Fields) × (found ≡ some event_data)
        × (denied_by name time event_data ≡ some d)
  decoded_denial name time none d h = cc
  decoded_denial name time (some event_data) d h = (event_data, refl, h)

  denial_of-IsDenied :
      (event : Event) (json name time : Option String) (d : Denied)
      → event.cloud_trail_event ≡ json
      → event.event_name ≡ name
      → event.event_time ≡ time
      → denial_of trail filter_string json name time ≡ some d
      → IsDenied trail filter_string event
  denial_of-IsDenied event none name time d has_json has_name has_time h = cc
  denial_of-IsDenied event (some json) none time d has_json has_name has_time h = cc
  denial_of-IsDenied event (some json) (some name) none d has_json has_name has_time h = cc
  denial_of-IsDenied event (some json) (some name) (some time) d has_json has_name has_time h =
      elim (Bool-cases (not (filter_string == "") && not (contains json filter_string))) [
        | inl left_out ↦ cc (left_out, rw left_out at h)
        | inr passed ↦
            let (event_data, decoded, denied) =
              decoded_denial name time (trail.decode json) d (rw passed at h) in
            let (tells, unknown) = (denied_by-some_iff event_data name time).0 (d, denied) in
            record {
              json = json;
              has_json = has_json;
              name = name;
              has_name = has_name;
              time = time;
              has_time = has_time;
              filtered = (passed_iff json filter_string).0 passed;
              event_data = event_data;
              decoded = decoded;
              tells = tells;
              unknown = unknown;
            }
      ]

  IsDenied-some :
      (event : Event)
      → IsDenied trail filter_string event
      → (d : Denied) × (denial trail filter_string event ≡ some d)
  IsDenied-some event h =
      let (d, denied) = (denied_by-some_iff h.event_data h.name h.time).1 (h.tells, h.unknown) in
      let passed = (passed_iff h.json filter_string).1 h.filtered in
      (d, rw (h.has_json, h.has_name, h.has_time, passed, h.decoded) denied)

  -- An event is left out exactly when it is not one to report.
  pub denial-none_iff :
      (event : Event)
      → (denial trail filter_string event ≡ none) ↔ (IsDenied trail filter_string event → ⊥)
  denial-none_iff event = elim (Option-cases (denial trail filter_string event)) [
    | inl absent ↦ (λ _. λ k. nothing absent (IsDenied-some event k).1, λ _. absent)
    | inr (d, found) ↦ (
      λ h. absurd (nothing h found),
      λ k. absurd (
          k (
            denial_of-IsDenied event event.cloud_trail_event event.event_name event.event_time d
              refl refl refl found)),
    )
  ]
    where
      nothing :
          {d : Denied}
          → denial trail filter_string event ≡ none
          → denial trail filter_string event ≡ some d
          → ⊥
      nothing h k = cc
