-- ===== src/Framework/Ocm/Creation/Sent.antt =====
-- What pkg/framework/ocm.go has sent when it has created a cluster with hosted control planes.
use openshift_online_rosa_e.Base.{
  String, ◌≡◌, ◌≢◌, refl, sym, ap, subst, ◌∙◌, ◌⊎◌, inl, inr, ◌==◌, eq_iff, Result, ok, err, wrap,
  Option, none, some, Bool-cases, ok-injective, clash,
}
use openshift_online_rosa_e.Base.Io.{◌>>◌}
use openshift_online_rosa_e.Base.Io.Laws.{then-ok}
use openshift_online_rosa_e.Config.{Config}
use openshift_online_rosa_e.Framework.Ocm.{
  ApiError, OcmError, resolve_version_for_topology, resolve_provision_shard,
}
use openshift_online_rosa_e.Framework.Ocm.Shards.{
  Listed, NoneListed, resolve_provision_shard-Listed,
}
use openshift_online_rosa_e.Framework.Ocm.Creation.{
  ClusterRequest, Creating, Clusters, hcp_request, new_name, keep_shard, complete_shard, created,
  send, add_hcp, hcp_of_version, create_rosa_hcp_cluster, resolving_version,
}
use openshift_online_rosa_e.Framework.Ocm.Creation.Requests.{
  ResolvedHcpVersion, resolve_version_for_topology-ResolvedHcpVersion, IsHcpRequest,
  hcp_request-IsHcpRequest, hcp_name, new_name-eq-hcp_name,
}

module _ {World : Type 0} (clusters : Clusters World) where
  -- The shard is the one chosen among those of the sector's ready service clusters, or, where these give
  -- none, among those in maintenance.
  abbrev pub IsChosen : Creating World → String → Type 0
  IsChosen s shard =
      Listed (clusters.fleet s.world) s.cfg.sector_name s.cfg.aws_region "ready" shard
      ⊎ (NoneListed (clusters.fleet s.world) s.cfg.sector_name s.cfg.aws_region "ready"
          × Listed (clusters.fleet s.world) s.cfg.sector_name s.cfg.aws_region "maintenance" shard)

  -- The shard that is asked for: the one that is set, or none without a sector, or else one of the
  -- sector's, which is not empty
  abbrev pub AskedShard : Creating World → String → Type 0
  AskedShard s shard =
      (((s.cfg.provision_shard_id ≢ "") ⊎ (s.cfg.sector_name ≡ ""))
        × (shard ≡ s.cfg.provision_shard_id))
      ⊎ ((s.cfg.provision_shard_id ≡ "")
          × (s.cfg.sector_name ≢ "")
          × (shard ≢ "")
          × IsChosen s shard)

  abbrev pub with_shard : Config → String → Config
  with_shard cfg shard = record cfg { provision_shard_id = shard }

  keep_shard-ok :
      (answer : Result OcmError String) (s : Creating World)
      → (keep_shard clusters answer s).0 ≡ ok tt
      → (shard : String) × (answer ≡ ok shard)
        × ((keep_shard clusters answer s).1 ≡ record s { cfg = with_shard (s.cfg) shard })
  keep_shard-ok (err e) s h = cc
  keep_shard-ok (ok shard) s h = (shard, refl, refl)

  complete_shard-Asked :
      (s : Creating World)
      → (complete_shard clusters s).0 ≡ ok tt
      → (shard : String) × AskedShard s shard
        × ((complete_shard clusters s).1 ≡ record s { cfg = with_shard (s.cfg) shard })
  unfolding complete_shard
  complete_shard-Asked s h = elim (Bool-cases (s.cfg.provision_shard_id == "")) [
    | inr set ↦ (
      s.cfg.provision_shard_id,
      inl (inl (λ e. clash ((eq_iff s.cfg.provision_shard_id "").1 e) set), refl),
      rw set refl,
    )
    | inl unset ↦ elim (Bool-cases (s.cfg.sector_name == "")) [
      | inl no_sector ↦ (
        s.cfg.provision_shard_id,
        inl (inr ((eq_iff s.cfg.sector_name "").0 no_sector), refl),
        rw (unset, no_sector) refl,
      )
      | inr sector ↦
          let (shard, resolved, same) =
            keep_shard-ok
              (resolve_provision_shard (clusters.fleet s.world) s.cfg.sector_name s.cfg.aws_region)
              s (rw (unset, sector) at h) in
          let chosen =
            resolve_provision_shard-Listed (clusters.fleet s.world) s.cfg.sector_name
              s.cfg.aws_region shard resolved in
          (
            shard,
            inr (
              (eq_iff s.cfg.provision_shard_id "").0 unset,
              λ e. clash ((eq_iff s.cfg.sector_name "").1 e) sector,
              chosen.0,
              chosen.1,
            ),
            rw (unset, sector) same,
          )
    ]
  ]

  -- A request that was built and sent, with the state after it
  created-ok :
      (s : Creating World) (answer : Result ApiError String × World) (id : String)
      → (created clusters s answer).0 ≡ ok id
      → (answer.0 ≡ ok id) × ((created clusters s answer).1 ≡ record s { world = answer.1 })
  created-ok s (ok i, w) id h = (ap ok (ok-injective i id h), refl)
  created-ok s (err e, w) id h = cc

  send-ok :
      (request : ClusterRequest) (allowed : Option ApiError) (s : Creating World) (id : String)
      → (send clusters request allowed s).0 ≡ ok id
      → (allowed ≡ none)
        × ((clusters.add request s.world).0 ≡ ok id)
        × ((send clusters request allowed s).1
            ≡ record s { world = (clusters.add request s.world).1 })
  send-ok request (some e) s id h = cc
  send-ok request none s id h =
      let done = created-ok s (clusters.add request s.world) id h in (refl, done.0, done.1)

  -- What was sent for the cluster of this ID
  pub record SentHcp (s : Creating World) (id : String) (after : Creating World) : Type 0 where
    pub version_id : String
    pub version_resolved : ResolvedHcpVersion (clusters.list_versions s.world) s.cfg version_id
    pub shard : String
    pub asked : AskedShard s shard
    pub request : ClusterRequest
    pub is_request : IsHcpRequest s.cfg (hcp_name clusters s) version_id shard request
    pub buildable : clusters.build request ≡ none
    pub answered : (clusters.add request s.world).0 ≡ ok id
    pub left :
        after ≡ record { cfg = with_shard (s.cfg) shard; world = (clusters.add request s.world).1 }

  wrapped :
      (s : Creating World) (r : Result OcmError String) (id : String)
      → (hcp_of_version clusters (new_name clusters "hcp" s) (wrap resolving_version r) s).0 ≡ ok id
      → (v : String) × (r ≡ ok v)
  wrapped s (ok v) id h = (v, refl)
  wrapped s (err e) id h = cc

  of_version :
      (s : Creating World) (name version_id id : String)
      → ((complete_shard clusters >> add_hcp clusters name version_id) s).0 ≡ ok id
      → (shard : String) × AskedShard s shard
        × (clusters.build (hcp_request (with_shard (s.cfg) shard) name version_id) ≡ none)
        × ((clusters.add (hcp_request (with_shard (s.cfg) shard) name version_id) s.world).0
            ≡ ok id)
        × (((complete_shard clusters >> add_hcp clusters name version_id) s).1 ≡ record {
          cfg = with_shard (s.cfg) shard;
          world = (clusters.add (hcp_request (with_shard (s.cfg) shard) name version_id) s.world).1;
        })
  of_version s name version_id id h =
      let (completed, sent, same) =
        then-ok (complete_shard clusters) (add_hcp clusters name version_id) s h in
      let (shard, asked, left) = complete_shard-Asked s completed in
      let request = hcp_request (with_shard (s.cfg) shard) name version_id in
      let done =
        send-ok request (clusters.build request) (record s { cfg = with_shard (s.cfg) shard }) id
          (rw left at sent) in
      (
        shard,
        asked,
        done.0,
        done.1,
        ap (λ p. p.1) same ∙ ap (λ t. (add_hcp clusters name version_id t).1) left ∙ done.2,
      )

  -- When CreateRosaHCPCluster returns an ID, it is what OCM answered to a request with each field as the
  -- configuration gives it, with the new name and the version: the one that is set, behind openshift-v, or
  -- else the first one that OCM lists for the channel group, ROSA and hosted control planes; and with the
  -- shard, where there is one, as the property provision_shard_id: the one that was set, or, where none was
  -- set and a sector is given, one that is not empty and is chosen among those of the sector's ready
  -- service clusters or, where these give none, among those in maintenance, namely the first whose topology
  -- is dedicated or cannot be read, or else the first of all; it is kept in the configuration.
  pub create_rosa_hcp_cluster-SentHcp :
      (s : Creating World) (id : String)
      → (create_rosa_hcp_cluster clusters s).0 ≡ ok id
      → SentHcp s id (create_rosa_hcp_cluster clusters s).1
  unfolding create_rosa_hcp_cluster
  create_rosa_hcp_cluster-SentHcp s id h =
      let (version_id, resolved) =
        wrapped s (resolve_version_for_topology (clusters.list_versions s.world) s.cfg "hcp") id
          h in
      let same =
        ap (λ r. hcp_of_version clusters (new_name clusters "hcp" s) (wrap resolving_version r) s)
          resolved in
      let (shard, asked, buildable, answered, left) =
        of_version s (new_name clusters "hcp" s) version_id id (sym (ap (λ p. p.0) same) ∙ h) in
      record {
        version_id = version_id;
        version_resolved =
            resolve_version_for_topology-ResolvedHcpVersion (clusters.list_versions s.world) s.cfg
              version_id resolved;
        shard = shard;
        asked = asked;
        request = hcp_request (with_shard (s.cfg) shard) (new_name clusters "hcp" s) version_id;
        is_request =
            subst
              (λ name.
                IsHcpRequest s.cfg name version_id shard
                  (hcp_request (with_shard (s.cfg) shard) (new_name clusters "hcp" s) version_id))
              (new_name-eq-hcp_name clusters s)
              (hcp_request-IsHcpRequest s.cfg shard (new_name clusters "hcp" s) version_id);
        buildable = buildable;
        answered = answered;
        left = ap (λ p. p.1) same ∙ left;
      }
