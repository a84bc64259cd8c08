-- ===== src/Framework/Vpc/Groups/Gone.antt =====
-- After `cleanupSecurityGroups` succeeds, the groups that it listed are gone, the default one excepted.
use openshift_online_rosa_e.Base.{
  String, ◌≡◌, refl, sym, subst, inl, inr, Option, List, [], ◌∷◌, ◌++◌, ◌∙◌, All, ap, Option-cases,
  ok, length, select,
}
use openshift_online_rosa_e.Base.Io.{gather}
use openshift_online_rosa_e.Base.Io.Laws.{
  Keeps, Keeps-bind, Keeps-gather, proceed-ok, gather-All, append-eq-nil,
}
use openshift_online_rosa_e.Framework.Vpc.Types.{
  AwsError, SecurityGroup, Ec2Client, Session, Issue, collect_pages, found_security_groups,
  describing_security_groups,
}
use openshift_online_rosa_e.Framework.Vpc.Calls.{logf, paginate}
use openshift_online_rosa_e.Framework.Vpc.Tracking.{
  Resource, Tracks, Holds, Keeps-logf, paginate-ok, Keeps-paginate,
}
use openshift_online_rosa_e.Framework.Vpc.Groups.{
  non_default, revoke, revoke_rules, delete_group, report_groups, cleanup_found_groups,
  cleanup_security_groups,
}

report_groups-ok :
    {World : Type 0} (issues : List Issue) (s : Session World)
    → (report_groups issues s).0 ≡ ok tt
    → issues ≡ []
unfolding report_groups
report_groups-ok [] s h = refl
report_groups-ok (issue ∷ issues) s h = cc

pub report_groups-session :
    {World : Type 0} (issues : List Issue) (s : Session World) → (report_groups issues s).1 ≡ s
unfolding report_groups
report_groups-session [] s = refl
report_groups-session (issue ∷ issues) s = refl

module _ {World Permission : Type 0} (client : Ec2Client World Permission) where
  pub cleanup_security_groups-found :
      (vpc_id : String) (s : Session World) (sgs : List (SecurityGroup Permission))
      → collect_pages (client.security_group_pages vpc_id s.world) ≡ ok sgs
      → cleanup_security_groups client vpc_id s
        ≡ cleanup_found_groups client vpc_id (select non_default sgs) s
  unfolding cleanup_security_groups
  cleanup_security_groups-found vpc_id s sgs listed = rw listed

module _ {World Permission : Type 0} (client : Ec2Client World Permission)
    {Gone : Resource → World → Type 0} (tracks : Tracks client Gone) where
  Keeps-revoke_rules :
      (r : Resource) (sg : SecurityGroup Permission)
      → Keeps (Holds (Gone r)) (revoke_rules client sg)
  unfolding revoke_rules
  Keeps-revoke_rules r sg =
      Keeps-bind (Holds (Gone r))
        (revoke client client.revoke_security_group_ingress _ sg.group_id sg.ip_permissions) _
        (Keeps-revoke client.revoke_security_group_ingress (tracks.stays_ingress r) _ sg.group_id
          sg.ip_permissions)
        (λ _.
          Keeps-bind (Holds (Gone r))
            (revoke client client.revoke_security_group_egress _ sg.group_id
              sg.ip_permissions_egress)
            _
            (Keeps-revoke client.revoke_security_group_egress (tracks.stays_egress r) _ sg.group_id
              sg.ip_permissions_egress)
            (λ _. record { at = λ s h. h }))
    where
      Keeps-revoke :
          (operation : Option String → List Permission → World → Option AwsError × World)
          → ((id : Option String) (rules : List Permission) (w : World)
              → Gone r w
              → Gone r (operation id rules w).1)
          → (line : AwsError → Issue) (id : Option String) (rules : List Permission)
          → Keeps (Holds (Gone r)) (revoke client operation line id rules)
      Keeps-revoke operation stays line id [] = record { at = λ s h. h }
      Keeps-revoke operation stays line id (rule ∷ rules) = record {
        at = λ s h. stays id (rule ∷ rules) s.world h;
      }

  Keeps-delete_group :
      (r : Resource) (sg : SecurityGroup Permission)
      → Keeps (Holds (Gone r)) (delete_group client sg)
  unfolding delete_group
  Keeps-delete_group r sg = record {
    at = λ s h. elim (Option-cases (client.delete_security_group sg.group_id s.world).0) [
      | inl deleted ↦ rw deleted (tracks.stays_group r sg.group_id s.world h)
      | inr (e, failed) ↦ rw failed (tracks.stays_group r sg.group_id s.world h)
    ];
  }

  abbrev pub GroupGone : SecurityGroup Permission → Session World → Type 0
  GroupGone sg s = Gone (Resource.group sg.group_id) s.world

  delete_group-GroupGone :
      (sg : SecurityGroup Permission) (s : Session World)
      → (delete_group client sg s).0 ≡ ok []
      → GroupGone sg (delete_group client sg s).1
  unfolding delete_group
  delete_group-GroupGone sg s h =
      elim (Option-cases (client.delete_security_group sg.group_id s.world).0) [
        | inl deleted ↦ rw deleted (tracks.group_deleted sg.group_id s.world deleted)
        | inr (e, failed) ↦ cc (failed, h)
      ]

  found_groups-GroupGone :
      (vpc_id : String) (sgs : List (SecurityGroup Permission)) (s : Session World)
      → (cleanup_found_groups client vpc_id sgs s).0 ≡ ok tt
      → All (λ sg. GroupGone sg (cleanup_found_groups client vpc_id sgs s).1) sgs
  unfolding cleanup_found_groups
  found_groups-GroupGone vpc_id [] s h = tt
  found_groups-GroupGone vpc_id (sg ∷ sgs) s h =
      let s0 = record s {
        log = s.log ++ (found_security_groups (length (sg ∷ sgs)) vpc_id ∷ []);
      } in
      let (revoke_errors, _, e) = proceed-ok _ (gather (revoke_rules client) (sg ∷ sgs) s0) h in
      let s1 = (gather (revoke_rules client) (sg ∷ sgs) s0).1 in
      let (delete_errors, gathered, e') =
        proceed-ok (λ delete_errors. report_groups (revoke_errors ++ delete_errors))
          (gather (delete_group client) (sg ∷ sgs) s1) (rw e at h) in
      let none_left =
        report_groups-ok (revoke_errors ++ delete_errors)
          (gather (delete_group client) (sg ∷ sgs) s1).1 (rw e' at (rw e at h)) in
      subst (λ t. All (λ x. GroupGone x t) (sg ∷ sgs))
        (sym (ap (λ p. p.1) (e ∙ e') ∙ report_groups-session _ _))
        (gather-All GroupGone (delete_group client)
          (λ x y. Keeps-delete_group (Resource.group y.group_id) x) delete_group-GroupGone
          (sg ∷ sgs) s1 (gathered ∙ ap ok (append-eq-nil revoke_errors delete_errors none_left).1))

  pub cleanup_security_groups-GroupGone :
      (vpc_id : String) (s : Session World) {sgs : List (SecurityGroup Permission)}
      → (cleanup_security_groups client vpc_id s).0 ≡ ok tt
      → collect_pages (client.security_group_pages vpc_id s.world) ≡ ok sgs
      → All
          (λ sg. GroupGone sg (cleanup_security_groups client vpc_id s).1)
          (select non_default sgs)
  cleanup_security_groups-GroupGone vpc_id s {sgs} h listed =
      let e = cleanup_security_groups-found client vpc_id s sgs listed in
      subst (λ p. All (λ x. GroupGone x p.1) (select non_default sgs)) (sym e)
        (found_groups-GroupGone vpc_id (select non_default sgs) s (rw e at h))

  pub Keeps-cleanup_security_groups :
      (r : Resource) (vpc_id : String)
      → Keeps (Holds (Gone r)) (cleanup_security_groups client vpc_id)
  unfolding cleanup_security_groups cleanup_found_groups
  Keeps-cleanup_security_groups r vpc_id =
      Keeps-bind (Holds (Gone r))
        (paginate (client.security_group_pages vpc_id) describing_security_groups) _
        (Keeps-paginate _ _ (Gone r)) (λ sgs. Keeps-found (select non_default sgs))
    where
      Keeps-report : (issues : List Issue) → Keeps (Holds (Gone r)) (report_groups issues)
      Keeps-report issues = record { at = λ s h. rw (report_groups-session issues s) h }

      Keeps-found :
          (sgs : List (SecurityGroup Permission))
          → Keeps (Holds (Gone r)) (cleanup_found_groups client vpc_id sgs)
      Keeps-found [] = record { at = λ s h. h }
      Keeps-found (sg ∷ sgs) =
          Keeps-bind (Holds (Gone r)) (logf (found_security_groups (length (sg ∷ sgs)) vpc_id)) _
            (Keeps-logf (Gone r) _)
            (λ _.
              Keeps-bind (Holds (Gone r)) (gather (revoke_rules client) (sg ∷ sgs)) _
                (Keeps-gather (Holds (Gone r)) (revoke_rules client) (Keeps-revoke_rules r)
                  (sg ∷ sgs))
                (λ revoke_errors.
                  Keeps-bind (Holds (Gone r)) (gather (delete_group client) (sg ∷ sgs))
                    (λ delete_errors. report_groups (revoke_errors ++ delete_errors))
                    (Keeps-gather (Holds (Gone r)) (delete_group client) (Keeps-delete_group r)
                      (sg ∷ sgs))
                    (λ delete_errors. Keeps-report (revoke_errors ++ delete_errors))))

  -- A phase that succeeded has listed.
  pub cleanup_security_groups-listed :
      (vpc_id : String) (s : Session World)
      → (cleanup_security_groups client vpc_id s).0 ≡ ok tt
      → (sgs : List (SecurityGroup Permission)) × (collect_pages
            (client.security_group_pages vpc_id s.world)
          ≡ ok sgs)
  unfolding cleanup_security_groups
  cleanup_security_groups-listed vpc_id s h =
      let pages = paginate (client.security_group_pages vpc_id) describing_security_groups in
      let (sgs, listed, _) =
        proceed-ok (λ sgs. cleanup_found_groups client vpc_id (select non_default sgs)) (pages s)
          h in
      (sgs, paginate-ok (client.security_group_pages vpc_id) describing_security_groups s listed)
