-- ===== src/Framework/Vpc/Subnets/Attempts.antt =====
-- `cleanupSubnets` tries every subnet, whatever fails before it.
use openshift_online_rosa_e.Base.{
  ℕ, ◌+◌, String, ◌≡◌, refl, inl, inr, Option, List, [], ◌∷◌, ◌++◌, arith, Option-cases, ok, length,
}
use openshift_online_rosa_e.Base.Io.Laws.{gather-count}
use openshift_online_rosa_e.Framework.Vpc.Types.{
  Subnet, Ec2Client, Session, Issue, to_string, collect_pages, found_subnets, subnet_issue,
}
use openshift_online_rosa_e.Framework.Vpc.Subnets.{
  delete_subnet, cleanup_found_subnets, cleanup_subnets,
}
use openshift_online_rosa_e.Framework.Vpc.Subnets.Gone.{report_subnets-session}

module _ {World Permission : Type 0} (client : Ec2Client World Permission) (count : World → ℕ)
    (delete-count : (id : Option String) (w : World)
      → count (client.delete_subnet id w).1 ≡ count w + 1) where
  delete_subnet-reports :
      (subnet : Subnet) (s : Session World)
      → (r : List Issue) × ((delete_subnet client subnet s).0 ≡ ok r)
  unfolding delete_subnet
  delete_subnet-reports subnet s =
      elim (Option-cases (client.delete_subnet subnet.subnet_id s.world).0) [
        | inl deleted ↦ ([], rw deleted refl)
        | inr (e, failed) ↦ (subnet_issue (to_string subnet.subnet_id) e ∷ [], rw failed refl)
      ]

  delete_subnet-count :
      (subnet : Subnet) (s : Session World)
      → count (delete_subnet client subnet s).1.world ≡ count s.world + 1
  unfolding delete_subnet
  delete_subnet-count subnet s =
      elim (Option-cases (client.delete_subnet subnet.subnet_id s.world).0) [
        | inl deleted ↦ rw deleted (delete-count subnet.subnet_id s.world)
        | inr (e, failed) ↦ rw failed (delete-count subnet.subnet_id s.world)
      ]

  pub count-cleanup_subnets :
      (vpc_id : String) (s : Session World) {subnets : List Subnet}
      → collect_pages (client.subnet_pages vpc_id s.world) ≡ ok subnets
      → count (cleanup_subnets client vpc_id s).1.world ≡ count s.world + length subnets
  unfolding cleanup_subnets cleanup_found_subnets
  count-cleanup_subnets vpc_id s {subnets = []} listed = rw listed (omega arith)
  count-cleanup_subnets vpc_id s {subnets = subnet ∷ subnets} listed =
      let s' = record s {
        log = s.log ++ (found_subnets (length (subnet ∷ subnets)) vpc_id ∷ []);
      } in
      let (issues, gathered, total) =
        gather-count (λ (t : Session World). count t.world) (delete_subnet client) 1
          delete_subnet-reports delete_subnet-count (subnet ∷ subnets) s' in
      rw listed (rw gathered (rw (report_subnets-session issues) (omega (arith, total))))
