-- ===== src/Framework/Vpc/Groups.antt =====
-- pkg/framework/vpc_cleanup.go: `cleanupSecurityGroups`.
pub mod Gone
pub mod Attempts
use openshift_online_rosa_e.Base.{
  ◌+◌, String, Bool, not, Option, none, some, List, [], ◌∷◌, ◌++◌, ◌==◌, length, select,
}
use openshift_online_rosa_e.Base.Io.{pure, raise, ◌>>=◌, ◌>>◌, gather}
use openshift_online_rosa_e.Framework.Vpc.Types.{
  AwsError, SecurityGroup, Ec2Client, Issue, to_string, describing_security_groups,
  security_group_issues, found_security_groups, security_group_deleted, ingress_issue, egress_issue,
  group_issue,
}
use openshift_online_rosa_e.Framework.Vpc.Calls.{Cleanup, call, logf, paginate}

-- An error, if the call gave one, as a line of the report
abbrev pub issues_of : (AwsError → Issue) → Option AwsError → List Issue
issues_of line none = []
issues_of line (some e) = line e ∷ []

module _ {Permission : Type 0} where
  -- `aws.ToString(sg.GroupName) != "default"`
  abbrev pub non_default : SecurityGroup Permission → Bool
  non_default sg = not (to_string sg.group_name == "default")

unfoldable pub report_groups : {World : Type 0} → List Issue → Cleanup World (Unit {0})
report_groups [] = pure tt
report_groups (issue ∷ issues) =
    raise (security_group_issues (length (issue ∷ issues)) (issue ∷ issues))

module _ {World Permission : Type 0} (client : Ec2Client World Permission) where
  -- A revocation, made only where the group has rules of that kind
  abbrev revoke :
      (Option String → List Permission → World → Option AwsError × World)
      → (AwsError → Issue)
      → Option String
      → List Permission
      → Cleanup World (List Issue)
  revoke operation line group_id [] = pure []
  revoke operation line group_id (rule ∷ rules) = do
    answer ← call (operation group_id (rule ∷ rules))
    pure (issues_of line answer)

  unfoldable pub revoke_rules : SecurityGroup Permission → Cleanup World (List Issue)
  revoke_rules sg =
      let sg_id = to_string sg.group_id in
      do
        ingress ←
            revoke client.revoke_security_group_ingress (ingress_issue sg_id) sg.group_id
              sg.ip_permissions
        egress ←
            revoke client.revoke_security_group_egress (egress_issue sg_id) sg.group_id
              sg.ip_permissions_egress
        pure (ingress ++ egress)

  -- A group that cannot be deleted is reported, and the loop goes on.
  unfoldable pub delete_group : SecurityGroup Permission → Cleanup World (List Issue)
  delete_group sg =
      let sg_id = to_string sg.group_id in
      let sg_name = to_string sg.group_name in
      do
        answer ← call (client.delete_security_group sg.group_id)
        elim answer [
          | some e ↦ pure (group_issue sg_id sg_name e ∷ [])
          | none ↦ logf (security_group_deleted sg_id sg_name) >> pure []
        ]

  -- All the rules go first, which breaks reference cycles among the groups.
  unfoldable pub cleanup_found_groups :
      String → List (SecurityGroup Permission) → Cleanup World (Unit {0})
  cleanup_found_groups vpc_id [] = pure tt
  cleanup_found_groups vpc_id (sg ∷ sgs) = do
    logf (found_security_groups (length (sg ∷ sgs)) vpc_id)
    revoke_errors ← gather revoke_rules (sg ∷ sgs)
    delete_errors ← gather delete_group (sg ∷ sgs)
    report_groups (revoke_errors ++ delete_errors)

  unfoldable pub cleanup_security_groups : String → Cleanup World (Unit {0})
  cleanup_security_groups vpc_id = do
    sgs ← paginate (client.security_group_pages vpc_id) describing_security_groups
    cleanup_found_groups vpc_id (select non_default sgs)
