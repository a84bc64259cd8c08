-- ===== src/Framework/Vpc/Subnets/Gone.antt =====
-- After `cleanupSubnets` succeeds, the subnets that it listed are gone.
use openshift_online_rosa_e.Base.{
  String, ◌≡◌, refl, sym, subst, inl, inr, List, [], ◌∷◌, ◌++◌, ◌∙◌, All, ap, Option-cases, ok,
  length,
}
use openshift_online_rosa_e.Base.Io.{◌>>=◌, gather}
use openshift_online_rosa_e.Base.Io.Laws.{Keeps, Keeps-bind, Keeps-gather, proceed-ok, gather-All}
use openshift_online_rosa_e.Framework.Vpc.Types.{
  Subnet, Ec2Client, Session, Issue, collect_pages, found_subnets, describing_subnets,
}
use openshift_online_rosa_e.Framework.Vpc.Calls.{logf, paginate}
use openshift_online_rosa_e.Framework.Vpc.Tracking.{
  Resource, Tracks, Holds, Keeps-logf, paginate-ok, Keeps-paginate,
}
use openshift_online_rosa_e.Framework.Vpc.Subnets.{
  delete_subnet, report_subnets, cleanup_found_subnets, cleanup_subnets,
}

report_subnets-ok :
    {World : Type 0} (issues : List Issue) (s : Session World)
    → (report_subnets issues s).0 ≡ ok tt
    → issues ≡ []
unfolding report_subnets
report_subnets-ok [] s h = refl
report_subnets-ok (issue ∷ issues) s h = cc

pub report_subnets-session :
    {World : Type 0} (issues : List Issue) (s : Session World) → (report_subnets issues s).1 ≡ s
unfolding report_subnets
report_subnets-session [] s = refl
report_subnets-session (issue ∷ issues) s = refl

module _ {World Permission : Type 0} (client : Ec2Client World Permission) where
  pub cleanup_subnets-gather :
      (vpc_id : String) (s : Session World) (subnet : Subnet) (subnets : List Subnet)
      → collect_pages (client.subnet_pages vpc_id s.world) ≡ ok (subnet ∷ subnets)
      → cleanup_subnets client vpc_id s
        ≡ (gather (delete_subnet client) (subnet ∷ subnets) >>= report_subnets)
            (record s { log = s.log ++ (found_subnets (length (subnet ∷ subnets)) vpc_id ∷ []) })
  unfolding cleanup_subnets cleanup_found_subnets
  cleanup_subnets-gather vpc_id s subnet subnets listed = rw listed

module _ {World Permission : Type 0} (client : Ec2Client World Permission)
    {Gone : Resource → World → Type 0} (tracks : Tracks client Gone) where
  Keeps-delete_subnet :
      (r : Resource) (subnet : Subnet) → Keeps (Holds (Gone r)) (delete_subnet client subnet)
  unfolding delete_subnet
  Keeps-delete_subnet r subnet = record {
    at = λ s h. elim (Option-cases (client.delete_subnet subnet.subnet_id s.world).0) [
      | inl deleted ↦ rw deleted (tracks.stays_subnet r subnet.subnet_id s.world h)
      | inr (e, failed) ↦ rw failed (tracks.stays_subnet r subnet.subnet_id s.world h)
    ];
  }

  abbrev pub SubnetGone : Subnet → Session World → Type 0
  SubnetGone subnet s = Gone (Resource.subnet subnet.subnet_id) s.world

  delete_subnet-SubnetGone :
      (subnet : Subnet) (s : Session World)
      → (delete_subnet client subnet s).0 ≡ ok []
      → SubnetGone subnet (delete_subnet client subnet s).1
  unfolding delete_subnet
  delete_subnet-SubnetGone subnet s h =
      elim (Option-cases (client.delete_subnet subnet.subnet_id s.world).0) [
        | inl deleted ↦ rw deleted (tracks.subnet_deleted subnet.subnet_id s.world deleted)
        | inr (e, failed) ↦ cc (failed, h)
      ]

  pub cleanup_subnets-SubnetGone :
      (vpc_id : String) (s : Session World) {subnets : List Subnet}
      → (cleanup_subnets client vpc_id s).0 ≡ ok tt
      → collect_pages (client.subnet_pages vpc_id s.world) ≡ ok subnets
      → All (λ subnet. SubnetGone subnet (cleanup_subnets client vpc_id s).1) subnets
  cleanup_subnets-SubnetGone vpc_id s {subnets = []} h listed = tt
  cleanup_subnets-SubnetGone vpc_id s {subnets = subnet ∷ subnets} h listed =
      let e = cleanup_subnets-gather client vpc_id s subnet subnets listed in
      let s' = record s {
        log = s.log ++ (found_subnets (length (subnet ∷ subnets)) vpc_id ∷ []);
      } in
      let (issues, gathered, e') =
        proceed-ok report_subnets (gather (delete_subnet client) (subnet ∷ subnets) s')
          (rw e at h) in
      let none_left =
        report_subnets-ok issues (gather (delete_subnet client) (subnet ∷ subnets) s').1
          (rw e' at (rw e at h)) in
      subst (λ t. All (λ x. SubnetGone x t) (subnet ∷ subnets))
        (sym (ap (λ p. p.1) (e ∙ e') ∙ report_subnets-session issues _))
        (gather-All SubnetGone (delete_subnet client)
          (λ x y. Keeps-delete_subnet (Resource.subnet y.subnet_id) x) delete_subnet-SubnetGone
          (subnet ∷ subnets) s' (gathered ∙ ap ok none_left))

  pub Keeps-cleanup_subnets :
      (r : Resource) (vpc_id : String) → Keeps (Holds (Gone r)) (cleanup_subnets client vpc_id)
  unfolding cleanup_subnets cleanup_found_subnets
  Keeps-cleanup_subnets r vpc_id =
      Keeps-bind (Holds (Gone r)) (paginate (client.subnet_pages vpc_id) describing_subnets) _
        (Keeps-paginate _ _ (Gone r)) Keeps-found
    where
      Keeps-report : (issues : List Issue) → Keeps (Holds (Gone r)) (report_subnets issues)
      Keeps-report issues = record { at = λ s h. rw (report_subnets-session issues s) h }

      Keeps-found :
          (subnets : List Subnet)
          → Keeps (Holds (Gone r)) (cleanup_found_subnets client vpc_id subnets)
      Keeps-found [] = record { at = λ s h. h }
      Keeps-found (subnet ∷ subnets) =
          Keeps-bind (Holds (Gone r)) (logf (found_subnets (length (subnet ∷ subnets)) vpc_id)) _
            (Keeps-logf (Gone r) _)
            (λ _.
              Keeps-bind (Holds (Gone r)) (gather (delete_subnet client) (subnet ∷ subnets)) _
                (Keeps-gather (Holds (Gone r)) (delete_subnet client) (Keeps-delete_subnet r)
                  (subnet ∷ subnets))
                Keeps-report)

  -- A phase that succeeded has listed.
  pub cleanup_subnets-listed :
      (vpc_id : String) (s : Session World)
      → (cleanup_subnets client vpc_id s).0 ≡ ok tt
      → (subnets : List Subnet) × (collect_pages (client.subnet_pages vpc_id s.world) ≡ ok subnets)
  unfolding cleanup_subnets
  cleanup_subnets-listed vpc_id s h =
      let pages = paginate (client.subnet_pages vpc_id) describing_subnets in
      let (subnets, listed, _) = proceed-ok (cleanup_found_subnets client vpc_id) (pages s) h in
      (subnets, paginate-ok (client.subnet_pages vpc_id) describing_subnets s listed)
