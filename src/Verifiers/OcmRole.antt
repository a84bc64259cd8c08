-- ===== src/Verifiers/OcmRole.antt =====
-- pkg/verifiers/ocm_role.go. The accounts service and `arn.Parse` of the AWS SDK are parameters.
pub mod Linked
pub mod Roles
use openshift_online_rosa_e.Base.{
  ℕ, String, Bool, false, not, List, [], ◌&&◌, ◌==◌, any, eqb, length, if◌then◌else◌, Result, ok,
  err, ◌>>=◌, Option, none, some, require, collect,
}
use openshift_online_rosa_e.Base.Text.{split_commas, trim_space, has_prefix}
use openshift_online_rosa_e.Verifiers.Conditions.{ApiError}

-- The fields of a parsed ARN that the code reads
pub record Arn : Type 0 where
  pub account_id : String
  pub service : String
  pub resource : String

-- An OCM error, with its HTTP status when it is one of the SDK's own
pub record OcmError : Type 0 where
  pub status : Option ℕ
  pub message : ApiError

pub record Accounts : Type 0 where
  -- The organization of the current account, by its ID
  pub current_organization : Result ApiError (Option String)
  pub get_label : String → String → Result OcmError String
  pub parse_arn : String → Option Arn

pub data RoleError : Type 0 where
  getting_current_account : ApiError → RoleError
  no_organization : RoleError
  getting_label : String → String → ApiError → RoleError
  no_role_linked : RoleError
  account_id_required : RoleError
  no_role_for_account : String → ℕ → RoleError

abbrev pub ocm_role_label_key : String
ocm_role_label_key = "sts_ocm_role"

abbrev pub is_role : Option Arn → Bool
is_role none = false
is_role (some parsed) =
    not (parsed.account_id == "")
    && ((parsed.service == "iam") && has_prefix parsed.resource "role/")

abbrev pub is_status : ℕ → Option ℕ → Bool
is_status wanted none = false
is_status wanted (some status) = eqb status wanted

module _ (accounts : Accounts) where
  -- The loop's body: a part of the label that is a role's ARN, without the spaces around it
  abbrev pub linked_arn : String → Option String
  linked_arn part =
      let trimmed = trim_space part in
      if trimmed == ""
      then none
      else if is_role (accounts.parse_arn trimmed)
      then some trimmed
      else none

  abbrev pub read_label : String → Result OcmError String → Result RoleError (List String)
  read_label org_id (err e) =
      if is_status 404 e.status
      then ok []
      else err (getting_label ocm_role_label_key org_id e.message)
  read_label org_id (ok value) =
      if value == "" then ok [] else ok (collect linked_arn (split_commas value))

  abbrev pub read_organization : Result ApiError (Option String) → Result RoleError (List String)
  read_organization (err e) = err (getting_current_account e)
  read_organization (ok none) = err no_organization
  read_organization (ok (some org_id)) =
      if org_id == ""
      then err no_organization
      else read_label org_id (accounts.get_label org_id ocm_role_label_key)

  -- `GetLinkedOCMRoleARNs`
  unfoldable pub get_linked_ocm_role_arns : Result RoleError (List String)
  get_linked_ocm_role_arns = read_organization accounts.current_organization

  -- `VerifyOCMRoleLinked`
  unfoldable pub verify_ocm_role_linked : Result RoleError (Unit {0})
  verify_ocm_role_linked =
      get_linked_ocm_role_arns >>= λ arns. require (not (eqb (length arns) 0)) no_role_linked

  abbrev pub is_of_account : String → Option Arn → Bool
  is_of_account aws_account_id none = false
  is_of_account aws_account_id (some parsed) = parsed.account_id == aws_account_id

  -- `VerifyOCMRoleLinkedForAccount`
  unfoldable pub verify_ocm_role_linked_for_account : String → Result RoleError (Unit {0})
  verify_ocm_role_linked_for_account aws_account_id =
      if aws_account_id == ""
      then err account_id_required
      else (get_linked_ocm_role_arns >>= λ arns.
          require (any (λ a. is_of_account aws_account_id (accounts.parse_arn a)) arns)
            (no_role_for_account aws_account_id (length arns)))
