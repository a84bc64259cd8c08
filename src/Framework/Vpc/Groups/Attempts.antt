-- ===== src/Framework/Vpc/Groups/Attempts.antt =====
-- `cleanupSecurityGroups` tries to delete every group but the default one, whatever fails before it.
use openshift_online_rosa_e.Base.{
  ℕ, ◌+◌, String, ◌≡◌, refl, inl, inr, Option, List, [], ◌∷◌, ◌++◌, ◌∙◌, arith, Option-cases,
  Result, ok, length, select,
}
use openshift_online_rosa_e.Base.Io.{gather}
use openshift_online_rosa_e.Base.Io.Laws.{gather-count}
use openshift_online_rosa_e.Framework.Vpc.Types.{
  SecurityGroup, Ec2Client, Session, CleanupError, Issue, to_string, collect_pages,
  found_security_groups, group_issue,
}
use openshift_online_rosa_e.Framework.Vpc.Groups.{
  non_default, revoke_rules, delete_group, cleanup_found_groups, cleanup_security_groups,
}
use openshift_online_rosa_e.Framework.Vpc.Groups.Gone.{
  report_groups-session, cleanup_security_groups-found,
}

module _ {World Permission : Type 0} (client : Ec2Client World Permission) (count : World → ℕ)
    (delete-count : (id : Option String) (w : World)
      → count (client.delete_security_group id w).1 ≡ count w + 1)
    (ingress-count : (id : Option String) (rules : List Permission) (w : World)
      → count (client.revoke_security_group_ingress id rules w).1 ≡ count w)
    (egress-count : (id : Option String) (rules : List Permission) (w : World)
      → count (client.revoke_security_group_egress id rules w).1 ≡ count w) where
  delete_group-reports :
      (sg : SecurityGroup Permission) (s : Session World)
      → (r : List Issue) × ((delete_group client sg s).0 ≡ ok r)
  unfolding delete_group
  delete_group-reports sg s =
      elim (Option-cases (client.delete_security_group sg.group_id s.world).0) [
        | inl deleted ↦ ([], rw deleted refl)
        | inr (e, failed) ↦
            (group_issue (to_string sg.group_id) (to_string sg.group_name) e ∷ [], rw failed refl)
      ]

  delete_group-count :
      (sg : SecurityGroup Permission) (s : Session World)
      → count (delete_group client sg s).1.world ≡ count s.world + 1
  unfolding delete_group
  delete_group-count sg s =
      elim (Option-cases (client.delete_security_group sg.group_id s.world).0) [
        | inl deleted ↦ rw deleted (delete-count sg.group_id s.world)
        | inr (e, failed) ↦ rw failed (delete-count sg.group_id s.world)
      ]

  revoke_rules_world :
      (sg : SecurityGroup Permission) (s : Session World)
      → (r : List Issue) × ((revoke_rules client sg s).0 ≡ ok r)
        × (count (revoke_rules client sg s).1.world ≡ count s.world)
  unfolding revoke_rules
  revoke_rules_world sg s = go sg.ip_permissions sg.ip_permissions_egress
    where
      go :
          (ingress egress : List Permission)
          → let out : Result CleanupError (List Issue) × Session World =
              revoke_rules client
                (record sg { ip_permissions = ingress; ip_permissions_egress = egress })
                s in
            (r : List Issue) × (out.0 ≡ ok r) × (count out.1.world ≡ count s.world)
      go [] [] = ([], refl, refl)
      go (x ∷ xs) [] = (_, refl, ingress-count sg.group_id (x ∷ xs) s.world)
      go [] (y ∷ ys) = (_, refl, egress-count sg.group_id (y ∷ ys) s.world)
      go (x ∷ xs) (y ∷ ys) = (
        _,
        refl,
        egress-count sg.group_id (y ∷ ys) _ ∙ ingress-count sg.group_id (x ∷ xs) s.world,
      )

  found_groups-count :
      (vpc_id : String) (sgs : List (SecurityGroup Permission)) (s : Session World)
      → count (cleanup_found_groups client vpc_id sgs s).1.world ≡ count s.world + length sgs
  unfolding cleanup_found_groups
  found_groups-count vpc_id [] s = omega arith
  found_groups-count vpc_id (sg ∷ sgs) s =
      let counted : Session World → ℕ = λ t. count t.world in
      let s0 = record s {
        log = s.log ++ (found_security_groups (length (sg ∷ sgs)) vpc_id ∷ []);
      } in
      let (_, revoked, same) =
        gather-count counted (revoke_rules client) 0
          (λ g t. ((revoke_rules_world g t).0, (revoke_rules_world g t).1))
          (λ g t. omega (arith, (revoke_rules_world g t).2)) (sg ∷ sgs) s0 in
      let (_, deleted, total) =
        gather-count counted (delete_group client) 1 delete_group-reports delete_group-count
          (sg ∷ sgs) (gather (revoke_rules client) (sg ∷ sgs) s0).1 in
      rw revoked (rw deleted (rw (report_groups-session _) (omega (arith, same, total))))

  pub count-cleanup_security_groups :
      (vpc_id : String) (s : Session World) {sgs : List (SecurityGroup Permission)}
      → collect_pages (client.security_group_pages vpc_id s.world) ≡ ok sgs
      → count (cleanup_security_groups client vpc_id s).1.world
        ≡ count s.world + length (select non_default sgs)
  count-cleanup_security_groups vpc_id s {sgs} listed =
      rw (cleanup_security_groups-found client vpc_id s sgs listed)
        (found_groups-count vpc_id (select non_default sgs) s)
