-- ===== src/Framework/Vpc/Cleanup/Gone.antt =====
-- What a cleanup that returned no error has deleted, and that no error leaves out a phase.
use openshift_online_rosa_e.Base.{
  String, ◌≡◌, refl, ◌∙◌, ap, Result, Result-cases, inl, inr, ok, err, List, [], ◌∷◌, All, select,
}
use openshift_online_rosa_e.Base.Io.{◌>>◌, within}
use openshift_online_rosa_e.Base.Io.Laws.{within-bind-ok}
use openshift_online_rosa_e.Framework.Vpc.Types.{
  NetworkInterface, SecurityGroup, Subnet, Ec2Client, Timing, Session, CleanupError, to_string,
  collect_pages, cleaning_enis, cleaning_security_groups, cleaning_subnets, cleanup_complete,
}
use openshift_online_rosa_e.Framework.Vpc.Calls.{Cleanup, logf}
use openshift_online_rosa_e.Framework.Vpc.Tracking.{Resource, Tracks}
use openshift_online_rosa_e.Framework.Vpc.Enis.{cleanup_enis}
use openshift_online_rosa_e.Framework.Vpc.Enis.Gone.{
  EniGone, cleanup_enis-EniGone, cleanup_enis-listed,
}
use openshift_online_rosa_e.Framework.Vpc.Groups.{non_default, cleanup_security_groups}
use openshift_online_rosa_e.Framework.Vpc.Groups.Gone.{
  GroupGone, cleanup_security_groups-GroupGone, Keeps-cleanup_security_groups,
  cleanup_security_groups-listed,
}
use openshift_online_rosa_e.Framework.Vpc.Subnets.{cleanup_subnets}
use openshift_online_rosa_e.Framework.Vpc.Subnets.Gone.{
  cleanup_subnets-SubnetGone, Keeps-cleanup_subnets, cleanup_subnets-listed,
}
use openshift_online_rosa_e.Framework.Vpc.Cleanup.{cleanup_vpc_resources}

-- A predicate that a step from `s` to `t` keeps is kept for all the elements of a list.
All-step :
    {A B : Type 0} (P : A → B → Type 0) (s t : B)
    → ((x : A) → P x s → P x t)
    → (xs : List A) → All (λ x. P x s) xs
    → All (λ x. P x t) xs
All-step P s t keep [] h = tt
All-step P s t keep (x ∷ xs) h = (keep x h.0, All-step P s t keep xs h.1)

-- The lists as each phase saw them, and that all of them are gone at the end.
pub record Cleaned {World Permission : Type 0} (client : Ec2Client World Permission)
    (Gone : Resource → World → Type 0) (vpc_id : String) (start finish : World) : Type 0 where
  pub enis : List NetworkInterface
  pub enis_listed : collect_pages (client.network_interface_pages vpc_id start) ≡ ok enis
  pub enis_gone : All (λ e. Gone (Resource.eni (to_string e.network_interface_id)) finish) enis
  pub groups_at : World
  pub groups : List (SecurityGroup Permission)
  pub groups_listed : collect_pages (client.security_group_pages vpc_id groups_at) ≡ ok groups
  pub groups_gone : All (λ g. Gone (Resource.group g.group_id) finish) (select non_default groups)
  pub subnets_at : World
  pub subnets : List Subnet
  pub subnets_listed : collect_pages (client.subnet_pages vpc_id subnets_at) ≡ ok subnets
  pub subnets_gone : All (λ n. Gone (Resource.subnet n.subnet_id) finish) subnets

module _ {World Permission : Type 0} (client : Ec2Client World Permission) (timing : Timing)
    (vpc_id : String) (s : Session World) where
  abbrev after_enis : Session World
  after_enis = (cleanup_enis client timing vpc_id s).1

  abbrev after_groups : Session World
  after_groups = (cleanup_security_groups client vpc_id after_enis).1

  abbrev after_subnets : Session World
  after_subnets = (cleanup_subnets client vpc_id after_groups).1

  -- No error at the end means that no phase had one, and that they ran in their order.
  pub cleanup_vpc_resources-phases :
      (cleanup_vpc_resources client timing vpc_id s).0 ≡ ok tt
      → ((cleanup_enis client timing vpc_id s).0 ≡ ok tt)
        × ((cleanup_security_groups client vpc_id after_enis).0 ≡ ok tt)
        × ((cleanup_subnets client vpc_id after_groups).0 ≡ ok tt)
        × ((cleanup_vpc_resources client timing vpc_id s).1.world ≡ after_subnets.world)
  unfolding cleanup_vpc_resources
  cleanup_vpc_resources-phases h =
      let complete : Cleanup World (Unit {0}) = logf (cleanup_complete vpc_id) in
      let subnets : Cleanup World (Unit {0}) =
        within (cleaning_subnets vpc_id) (cleanup_subnets client vpc_id) >> complete in
      let groups : Cleanup World (Unit {0}) =
        within (cleaning_security_groups vpc_id) (cleanup_security_groups client vpc_id)
        >> subnets in
      let (_, enis_ok, e) =
        within-bind-ok (cleaning_enis vpc_id) (cleanup_enis client timing vpc_id) (λ _. groups) s
          h in
      let (_, groups_ok, e') =
        within-bind-ok (cleaning_security_groups vpc_id) (cleanup_security_groups client vpc_id)
          (λ _. subnets) after_enis (rw e at h) in
      let (_, subnets_ok, e'') =
        within-bind-ok (cleaning_subnets vpc_id) (cleanup_subnets client vpc_id) (λ _. complete)
          after_groups (rw e' at (rw e at h)) in
      (enis_ok, groups_ok, subnets_ok, ap (λ p. p.1.world) (e ∙ e' ∙ e''))

  -- What an error says: the phase that failed with it, that the phases before it had no error, and
  -- that the session is the one that this phase left.
  abbrev pub FailedPhase : CleanupError → Session World → Type 0
  FailedPhase (cleaning_enis v e) t =
      (v ≡ vpc_id) × ((cleanup_enis client timing vpc_id s).0 ≡ err e) × (t ≡ after_enis)
  FailedPhase (cleaning_security_groups v e) t =
      (v ≡ vpc_id)
      × ((cleanup_enis client timing vpc_id s).0 ≡ ok tt)
      × ((cleanup_security_groups client vpc_id after_enis).0 ≡ err e)
      × (t ≡ after_groups)
  FailedPhase (cleaning_subnets v e) t =
      (v ≡ vpc_id)
      × ((cleanup_enis client timing vpc_id s).0 ≡ ok tt)
      × ((cleanup_security_groups client vpc_id after_enis).0 ≡ ok tt)
      × ((cleanup_subnets client vpc_id after_groups).0 ≡ err e)
      × (t ≡ after_subnets)
  FailedPhase _ t = ⊥

  abbrev Explained : Result CleanupError (Unit {0}) × Session World → Type 0
  Explained (ok _, t) = t.world ≡ after_subnets.world
  Explained (err e, t) = FailedPhase e t

  cleanup_vpc_resources-Explained : Explained (cleanup_vpc_resources client timing vpc_id s)
  unfolding cleanup_vpc_resources
  cleanup_vpc_resources-Explained = elim (Result-cases (cleanup_enis client timing vpc_id s).0) [
    | inr (e, failed) ↦ rw failed (refl, failed, refl)
    | inl (_, enis_ok) ↦
        rw enis_ok (elim (Result-cases (cleanup_security_groups client vpc_id after_enis).0) [
          | inr (e, failed) ↦ rw failed (refl, enis_ok, failed, refl)
          | inl (_, groups_ok) ↦
              rw groups_ok (elim (Result-cases (cleanup_subnets client vpc_id after_groups).0) [
                | inr (e, failed) ↦ rw failed (refl, enis_ok, groups_ok, failed, refl)
                | inl (_, subnets_ok) ↦ rw subnets_ok refl
              ])
        ])
  ]

  -- The error names the phase that failed; the phases before it had no error, and the later ones
  -- were not run.
  pub cleanup_vpc_resources-FailedPhase :
      (e : CleanupError)
      → (cleanup_vpc_resources client timing vpc_id s).0 ≡ err e
      → FailedPhase e (cleanup_vpc_resources client timing vpc_id s).1
  cleanup_vpc_resources-FailedPhase e h = rw h at cleanup_vpc_resources-Explained

module _ {World Permission : Type 0} (client : Ec2Client World Permission) (timing : Timing)
    {Gone : Resource → World → Type 0} (tracks : Tracks client Gone) where
  pub cleanup_vpc_resources-Cleaned :
      (vpc_id : String) (s : Session World)
      → (cleanup_vpc_resources client timing vpc_id s).0 ≡ ok tt
      → Cleaned client Gone vpc_id s.world (cleanup_vpc_resources client timing vpc_id s).1.world
  cleanup_vpc_resources-Cleaned vpc_id s h =
      let (enis_ok, groups_ok, subnets_ok, final) =
        cleanup_vpc_resources-phases client timing vpc_id s h in
      let s1 = after_enis client timing vpc_id s in
      let s2 = after_groups client timing vpc_id s in
      let s3 = after_subnets client timing vpc_id s in
      let (enis, enis_listed) = cleanup_enis-listed client timing tracks vpc_id s enis_ok in
      let (groups, groups_listed) =
        cleanup_security_groups-listed client tracks vpc_id s1 groups_ok in
      let (subnets, subnets_listed) = cleanup_subnets-listed client tracks vpc_id s2 subnets_ok in
      rw final (record {
        enis = enis;
        enis_listed = enis_listed;
        enis_gone =
            All-step (EniGone client timing tracks) s1 s3
              (λ e g.
                (Keeps-cleanup_subnets client tracks _ vpc_id).at s2
                  ((Keeps-cleanup_security_groups client tracks _ vpc_id).at s1 g))
              enis (cleanup_enis-EniGone client timing tracks vpc_id s enis_ok enis_listed);
        groups_at = s1.world;
        groups = groups;
        groups_listed = groups_listed;
        groups_gone =
            All-step (GroupGone client tracks) s2 s3
              (λ g gone. (Keeps-cleanup_subnets client tracks _ vpc_id).at s2 gone)
              (select non_default groups)
              (cleanup_security_groups-GroupGone client tracks vpc_id s1 groups_ok groups_listed);
        subnets_at = s2.world;
        subnets = subnets;
        subnets_listed = subnets_listed;
        subnets_gone = cleanup_subnets-SubnetGone client tracks vpc_id s2 subnets_ok subnets_listed;
      })
