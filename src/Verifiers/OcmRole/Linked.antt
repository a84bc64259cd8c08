-- ===== src/Verifiers/OcmRole/Linked.antt =====
-- pkg/verifiers/ocm_role.go: which links the checks accept.
use openshift_online_rosa_e.Base.{
  ℕ, suc, Bool, String, ◌||◌, ◌≡◌, ◌≢◌, refl, ap, ◌∙◌, ◌⊎◌, inl, inr, ◌↔◌, true, List, [], ◌∷◌,
  ◌==◌, eq_iff, any, Any, length, Result, ok, err, ◌>>=◌, Option, none, some, require, require_iff,
  collect, collect-eq-nil, Bool-cases, Option-cases, false-ne-true, clash, All, arith,
}
use openshift_online_rosa_e.Base.Text.{split_commas, trim_space}
use openshift_online_rosa_e.Base.Text.Equality.{==-eq-false_ne}
use openshift_online_rosa_e.Verifiers.Conditions.{ApiError}
use openshift_online_rosa_e.Verifiers.OcmRole.{
  Arn, Accounts, RoleError, OcmError, is_status, linked_arn, is_of_account, read_label,
  read_organization, get_linked_ocm_role_arns, verify_ocm_role_linked_for_account,
  no_role_for_account,
}
use openshift_online_rosa_e.Verifiers.OcmRole.Roles.{
  NoRole, RoleOf, linked_arn-some, linked_arn-none_iff,
}

module _ (accounts : Accounts) where
  -- The label was read, and a part of it, between commas, is a role of the account.
  abbrev pub LinksRole : String → Result OcmError String → Type 0
  LinksRole id (err e) = ⊥
  LinksRole id (ok value) = (value ≢ "") × Any (RoleOf accounts id) (split_commas value)

  -- The label is missing, with the status 404, or it is empty or has no part that is a role.
  abbrev pub LinksNothing : Result OcmError String → Type 0
  LinksNothing (err e) = e.status ≡ some 404
  LinksNothing (ok value) = (value ≡ "") ⊎ All (NoRole accounts) (split_commas value)

  -- The account has an organization, whose ID is not empty, and its label reads like this.
  abbrev pub OfOrganization :
      (Result OcmError String → Type 0) → Result ApiError (Option String) → Type 0
  OfOrganization Reads (err e) = ⊥
  OfOrganization Reads (ok none) = ⊥
  OfOrganization Reads (ok (some org_id)) =
      (org_id ≢ "") × Reads (accounts.get_label org_id "sts_ocm_role")

  abbrev of_account : String → String → Bool
  of_account id a = is_of_account accounts id (accounts.parse_arn a)

  -- The entries of an account are its roles.
  any-collect :
      (id : String) (parts : List String)
      → (any (of_account id) (collect (linked_arn accounts) parts) ≡ true)
        ↔ Any (RoleOf accounts id) parts
  unfolding collect
  any-collect id [] = (λ h. false-ne-true h, λ h. absurd h)
  any-collect id (part ∷ parts) = elim (Option-cases (linked_arn accounts part)) [
    | inl absent ↦
        let none_here = (linked_arn-none_iff accounts part).0 absent in
        rw absent (
          λ h. inr ((any-collect id parts).0 h),
          elim [
            | inl here ↦ absurd (none_here here.0 here.1)
            | inr later ↦ (any-collect id parts).1 later
          ],
        )
    | inr (a, found) ↦
        let (parsed, role, is_parsed) = linked_arn-some accounts part a found in
        let here = eq_iff parsed.account_id id in
        let rest = any-collect id parts in
        rw (found, is_parsed)
          (
            λ h. elim (or-cases (parsed.account_id == id) _ h) [
              | inl same ↦ inl (parsed, role, here.0 same)
              | inr later ↦ inr (rest.0 later)
            ],
            elim [
              | inl other ↦
                  or-left (parsed.account_id == id) _
                    (here.1 (ap (λ p. p.account_id) (only role.1 other.1.1) ∙ other.2))
              | inr later ↦ or-right (parsed.account_id == id) _ (rest.1 later)
            ],
          )
  ]
    where
      only :
          {p q : Arn}
          → accounts.parse_arn (trim_space part) ≡ some p
          → accounts.parse_arn (trim_space part) ≡ some q
          → p ≡ q
      only h k = cc

      or-cases : (a b : Bool) → (a || b) ≡ true → (a ≡ true) ⊎ (b ≡ true)
      or-cases a b h = ground arith

      or-left : (a b : Bool) → a ≡ true → (a || b) ≡ true
      or-left a b h = ground arith

      or-right : (a b : Bool) → b ≡ true → (a || b) ≡ true
      or-right a b h = ground arith

  -- The check of the entries that were read
  abbrev checked : String → Result RoleError (List String) → Result RoleError (Unit {0})
  checked id answer =
      answer >>= λ arns. require (any (of_account id) arns) (no_role_for_account id (length arns))

  none_iff :
      (id : String) (arns : List String)
      → (checked id (ok arns) ≡ err (no_role_for_account id 0)) ↔ (arns ≡ [])
  none_iff id [] = (λ h. refl, λ h. refl)
  none_iff id (a ∷ arns) = elim (Bool-cases (any (of_account id) (a ∷ arns))) [
    | inl passed ↦ rw passed (λ h. cc, λ h. cc)
    | inr failed ↦ rw failed (λ h. absurd (counted h), λ h. cc)
  ]
    where
      counted :
          {n : ℕ}
          → Path
              (Result RoleError (Unit {0}))
              (err (no_role_for_account id (suc n)))
              (err (no_role_for_account id 0))
          → ⊥
      counted h = ground arith

  read_label_iff :
      (id org_id : String) (answer : Result OcmError String)
      → ((checked id (read_label accounts org_id answer) ≡ ok tt) ↔ LinksRole id answer)
        × ((checked id (read_label accounts org_id answer) ≡ err (no_role_for_account id 0))
            ↔ LinksNothing answer)
  read_label_iff id org_id (err e) = elim (Bool-cases (is_status 404 e.status)) [
    | inl missing ↦
        rw missing ((λ h. cc, λ h. absurd h), (λ h. (is_status_iff e.status).0 missing, λ h. refl))
    | inr other ↦
        rw other
          ((λ h. cc, λ h. absurd h), (λ h. cc, λ h. clash ((is_status_iff e.status).1 h) other))
  ]
    where
      is_status_iff : (status : Option ℕ) → (is_status 404 status ≡ true) ↔ (status ≡ some 404)
      is_status_iff none = (λ h. false-ne-true h, λ h. cc)
      is_status_iff (some status) = ground arith
  read_label_iff id org_id (ok value) = elim (Bool-cases (value == "")) [
    | inl empty ↦
        let same = (eq_iff value "").0 empty in
        rw empty ((λ h. cc, λ h. absurd (h.0 same)), (λ h. inl same, λ h. refl))
    | inr filled ↦
        let named = ==-eq-false_ne value "" filled in
        let entries = collect (linked_arn accounts) (split_commas value) in
        let passes =
          require_iff (any (of_account id) entries) (no_role_for_account id (length entries)) in
        let found = any-collect id (split_commas value) in
        let nothing = collect-eq-nil (linked_arn-none_iff accounts) (split_commas value) in
        let empty = none_iff id entries in
        rw filled (
          (λ h. (named, found.0 (passes.0 h)), λ h. passes.1 (found.1 h.1)),
          (
            λ h. inr (nothing.0 (empty.0 h)),
            elim [ inl same ↦ absurd (named same) | inr absent ↦ empty.1 (nothing.1 absent) ],
          ),
        )
  ]

  read_organization_iff :
      (id : String) (answer : Result ApiError (Option String))
      → ((checked id (read_organization accounts answer) ≡ ok tt)
          ↔ OfOrganization (LinksRole id) answer)
        × ((checked id (read_organization accounts answer) ≡ err (no_role_for_account id 0))
            ↔ OfOrganization LinksNothing answer)
  read_organization_iff id (err e) = ((λ h. cc, λ h. absurd h), (λ h. cc, λ h. absurd h))
  read_organization_iff id (ok none) = ((λ h. cc, λ h. absurd h), (λ h. cc, λ h. absurd h))
  read_organization_iff id (ok (some org_id)) = elim (Bool-cases (org_id == "")) [
    | inl empty ↦
        let same = (eq_iff org_id "").0 empty in
        rw empty ((λ h. cc, λ h. absurd (h.0 same)), (λ h. cc, λ h. absurd (h.0 same)))
    | inr named ↦
        let read = read_label_iff id org_id (accounts.get_label org_id "sts_ocm_role") in
        let present = ==-eq-false_ne org_id "" named in
        rw named (
          (λ h. (present, read.0.0 h), λ h. read.0.1 h.1),
          (λ h. (present, read.1.0 h), λ h. read.1.1 h.1),
        )
  ]

  -- VerifyOCMRoleLinkedForAccount passes exactly when the ID is not empty, the account has an organization
  -- whose ID is not empty, its label sts_ocm_role was read, and a part of the label between commas, without
  -- the spaces around it, is parsed as the ARN of an IAM role of that account; and it says that no
  -- role at all is linked, so that none is the account's, exactly when, with such an ID and organization,
  -- the label is missing with the status 404, or is empty, or has no part that is an IAM role's ARN.
  pub verify_for_account_iff :
      (aws_account_id : String)
      → ((verify_ocm_role_linked_for_account accounts aws_account_id ≡ ok tt) ↔ (
          (aws_account_id ≢ "")
          × OfOrganization (LinksRole aws_account_id) accounts.current_organization))
        × ((verify_ocm_role_linked_for_account accounts aws_account_id
              ≡ err (no_role_for_account aws_account_id 0))
            ↔ ((aws_account_id ≢ "") × OfOrganization LinksNothing accounts.current_organization))
  unfolding verify_ocm_role_linked_for_account get_linked_ocm_role_arns
  verify_for_account_iff id = elim (Bool-cases (id == "")) [
    | inl empty ↦
        let same = (eq_iff id "").0 empty in
        rw empty ((λ h. cc, λ h. absurd (h.0 same)), (λ h. cc, λ h. absurd (h.0 same)))
    | inr named ↦
        let read = read_organization_iff id accounts.current_organization in
        let present = ==-eq-false_ne id "" named in
        rw named (
          (λ h. (present, read.0.0 h), λ h. read.0.1 h.1),
          (λ h. (present, read.1.0 h), λ h. read.1.1 h.1),
        )
  ]
