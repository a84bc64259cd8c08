-- ===== src/Verifiers/OcmRole/Roles.antt =====
-- pkg/verifiers/ocm_role.go: which parts of the label are roles.
use openshift_online_rosa_e.Base.{
  String, ◌<>◌, ◌≡◌, ◌≢◌, refl, sym, ap, ◌∙◌, inl, inr, ◌↔◌, true, ◌==◌, eq_iff, Option, none, some,
  Bool-cases, Option-cases, arith,
}
use openshift_online_rosa_e.Base.Text.{trim_space}
use openshift_online_rosa_e.Base.Text.Equality.{==-eq-false_ne}
use openshift_online_rosa_e.Base.Text.Laws.{has_prefix_iff}
use openshift_online_rosa_e.Verifiers.OcmRole.{Arn, Accounts, is_role, linked_arn}

-- The role of a named account, in the service iam
abbrev pub IsRoleArn : Arn → Type 0
IsRoleArn parsed =
    (parsed.account_id ≢ "")
    × (parsed.service ≡ "iam")
    × ((rest : String) × (parsed.resource ≡ "role/" <> rest))

is_role_iff : (parsed : Arn) → (is_role (some parsed) ≡ true) ↔ IsRoleArn parsed
is_role_iff parsed =
    let role = has_prefix_iff parsed.resource "role/" in
    ground (arith, role, eq_iff parsed.account_id "", eq_iff parsed.service "iam")

module _ (accounts : Accounts) where
  -- A part of the label is read, without the spaces around it, as this ARN of a role.
  abbrev pub IsRoleText : String → Arn → Type 0
  IsRoleText part parsed =
      (trim_space part ≢ "")
      × (accounts.parse_arn (trim_space part) ≡ some parsed)
      × IsRoleArn parsed

  abbrev pub NoRole : String → Type 0
  NoRole part = (parsed : Arn) → IsRoleText part parsed → ⊥

  abbrev pub RoleOf : String → String → Type 0
  RoleOf id part = (parsed : Arn) × IsRoleText part parsed × (parsed.account_id ≡ id)

  pub linked_arn-some :
      (part a : String)
      → linked_arn accounts part ≡ some a
      → (parsed : Arn) × IsRoleText part parsed × (accounts.parse_arn a ≡ some parsed)
  linked_arn-some part a h = elim (Bool-cases (trim_space part == "")) [
    | inl empty ↦ cc (empty, rw empty at h)
    | inr named ↦ elim (Option-cases (accounts.parse_arn (trim_space part))) [
      | inl unparsed ↦ cc (rw (named, unparsed) at h)
      | inr (parsed, is_parsed) ↦ elim (Bool-cases (is_role (some parsed))) [
        | inr other ↦ cc (rw (named, is_parsed, other) at h)
        | inl role ↦
            let same = inner (rw (named, is_parsed, role) at h) in
            (
              parsed,
              (==-eq-false_ne (trim_space part) "" named, is_parsed, (is_role_iff parsed).0 role),
              ap (λ t. accounts.parse_arn t) (sym same) ∙ is_parsed,
            )
      ]
    ]
  ]
    where
      inner : {s t : String} → Path (Option String) (some s) (some t) → s ≡ t
      inner h = cc

  IsRoleText-linked :
      (part : String) (parsed : Arn)
      → IsRoleText part parsed
      → linked_arn accounts part ≡ some (trim_space part)
  IsRoleText-linked part parsed h = elim (Bool-cases (trim_space part == "")) [
    | inl empty ↦ absurd (h.0 ((eq_iff (trim_space part) "").0 empty))
    | inr named ↦ rw (named, h.1, (is_role_iff parsed).1 h.2) refl
  ]

  pub linked_arn-none_iff : (part : String) → (linked_arn accounts part ≡ none) ↔ NoRole part
  linked_arn-none_iff part = elim (Option-cases (linked_arn accounts part)) [
    | inl absent ↦ (λ _. λ parsed k. nothing absent (IsRoleText-linked part parsed k), λ _. absent)
    | inr (a, found) ↦ (
      λ h. absurd (nothing h found),
      λ k. let (parsed, role, same) = linked_arn-some part a found in absurd (k parsed role),
    )
  ]
    where
      nothing :
          {a : String} → linked_arn accounts part ≡ none → linked_arn accounts part ≡ some a → ⊥
      nothing h k = cc
