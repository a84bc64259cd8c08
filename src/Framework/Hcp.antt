-- ===== src/Framework/Hcp.antt =====
-- pkg/framework/hcp.go
pub mod Resolved
use openshift_online_rosa_e.Base.{
  String, ◌<>◌, Bool, not, List, [], ◌∷◌, ◌&&◌, ◌||◌, ◌==◌, ltb, if◌then◌else◌, Result, ok, err,
}
use openshift_online_rosa_e.Base.Text.{has_suffix, byte_length}

pub record HcpNamespaces : Type 0 where
  pub hc_namespace : String
  pub hcp_namespace : String
  pub cluster_name : String

-- A HostedCluster object, by what is read of it
pub record HostedCluster : Type 0 where
  pub name : String
  pub namespace : String

pub data HcpError : Type 0 where
  listing_hosted_clusters : String → HcpError
  no_hosted_cluster : String → String → HcpError

-- `containsID`
unfoldable pub contains_id : String → String → Bool
unfolding byte_length
contains_id namespace cluster_id =
    ltb 8 (byte_length cluster_id)
    && (ltb (byte_length cluster_id) (byte_length namespace) && has_suffix namespace cluster_id)

abbrev pub matches : String → String → HostedCluster → Bool
matches cluster_name cluster_id item =
    (item.name == cluster_name) || (not (cluster_id == "") && contains_id item.namespace cluster_id)

abbrev pub namespaces_of : HostedCluster → HcpNamespaces
namespaces_of item = record {
  hc_namespace = item.namespace;
  hcp_namespace = (item.namespace <> "-") <> item.name;
  cluster_name = item.name;
}

-- The loop of `ResolveHCPNamespaces`
unfoldable pub first_match : String → String → List HostedCluster → Result HcpError HcpNamespaces
first_match cluster_name cluster_id [] = err (no_hosted_cluster cluster_name cluster_id)
first_match cluster_name cluster_id (item ∷ items) =
    let rest = first_match cluster_name cluster_id items in
    if matches cluster_name cluster_id item then ok (namespaces_of item) else rest

-- `ResolveHCPNamespaces`, from the answer to the listing
unfoldable pub resolve_hcp_namespaces :
    Result String (List HostedCluster) → String → String → Result HcpError HcpNamespaces
unfolding first_match
resolve_hcp_namespaces (err e) cluster_name cluster_id = err (listing_hosted_clusters e)
resolve_hcp_namespaces (ok items) cluster_name cluster_id =
    first_match cluster_name cluster_id items
