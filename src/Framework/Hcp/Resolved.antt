-- ===== src/Framework/Hcp/Resolved.antt =====
-- pkg/framework/hcp.go: which object is resolved.
use openshift_online_rosa_e.Base.{
  ℕ, ◌<◌, String, ◌<>◌, ◌≡◌, ◌≢◌, refl, sym, ap, ◌↔◌, ◌⊎◌, inl, inr, Bool, true, false, not, ◌&&◌,
  ◌||◌, eq_iff, clash, ltb, Result, ok, err, List, [], ◌∷◌, ◌++◌, All, Bool-cases, &&-eq-true,
  arith,
}
use openshift_online_rosa_e.Base.Text.{has_suffix, byte_length}
use openshift_online_rosa_e.Base.Text.Laws.{has_suffix_front, has_suffix-append}
use openshift_online_rosa_e.Framework.Hcp.{
  HcpNamespaces, HostedCluster, HcpError, contains_id, matches, first_match, resolve_hcp_namespaces,
}

-- A namespace ends in the ID, behind at least one byte, and the ID has more than eight bytes.
abbrev pub EndsInId : String → String → Type 0
EndsInId namespace cluster_id =
    (8 < byte_length cluster_id)
    × (byte_length cluster_id < byte_length namespace)
    × ((front : String) × (namespace ≡ front <> cluster_id))

ltb_iff : (a b : ℕ) → (ltb a b ≡ true) ↔ (a < b)
ltb_iff a b = ground arith

-- containsID is true exactly for a namespace that is longer than the ID and ends in it, where the ID is
-- longer than eight bytes; an ID in the middle of a namespace does not count.
pub contains_id_iff :
    (namespace cluster_id : String)
    → (contains_id namespace cluster_id ≡ true) ↔ EndsInId namespace cluster_id
unfolding contains_id
contains_id_iff namespace id =
    let long = ltb_iff 8 (byte_length id) in
    let longer = ltb_iff (byte_length id) (byte_length namespace) in
    let outer =
      &&-eq-true (ltb 8 (byte_length id))
        (ltb (byte_length id) (byte_length namespace) && has_suffix namespace id) in
    let inner =
      &&-eq-true (ltb (byte_length id) (byte_length namespace)) (has_suffix namespace id) in
    (
      λ h.
          let k = outer.0 h in
          let l = inner.0 k.1 in (long.0 k.0, longer.0 l.0, has_suffix_front namespace id l.1),
      λ h. outer.1 (long.1 h.0, inner.1 (longer.1 h.1, rw (h.2.1) (has_suffix-append h.2.0 id))),
    )

-- The object has the wanted name, or its namespace ends in the ID, which is not empty.
abbrev pub Matches : String → String → HostedCluster → Type 0
Matches cluster_name cluster_id item =
    (item.name ≡ cluster_name) ⊎ ((cluster_id ≢ "") × EndsInId item.namespace cluster_id)

matches_iff :
    (cluster_name cluster_id : String) (item : HostedCluster)
    → (matches cluster_name cluster_id item ≡ true) ↔ Matches cluster_name cluster_id item
matches_iff cluster_name cluster_id item =
    by_tests (eq_iff item.name cluster_name) (eq_iff cluster_id "")
      (contains_id_iff item.namespace cluster_id)
  where
    by_tests :
        {a b c : Bool} {A B C : Type 0}
        → (a ≡ true) ↔ A
        → (b ≡ true) ↔ B
        → (c ≡ true) ↔ C
        → ((a || (not b && c)) ≡ true) ↔ (A ⊎ ((B → ⊥) × C))
    by_tests k l m = ground (arith, k, l, m)

-- The namespaces are those of the first object that matches.
pub record FirstMatch (wanted_name wanted_id : String) (items : List HostedCluster)
    (found : HcpNamespaces) : Type 0 where
  pub before : List HostedCluster
  pub item : HostedCluster
  pub after : List HostedCluster
  pub split : items ≡ before ++ (item ∷ after)
  pub passed_over : All (λ i. Matches wanted_name wanted_id i → ⊥) before
  pub matching : Matches wanted_name wanted_id item
  pub has_namespace : found.hc_namespace ≡ item.namespace
  pub has_hcp_namespace : found.hcp_namespace ≡ (item.namespace <> "-") <> item.name
  pub has_name : found.cluster_name ≡ item.name

first_match-FirstMatch :
    (cluster_name cluster_id : String) (items : List HostedCluster) (found : HcpNamespaces)
    → first_match cluster_name cluster_id items ≡ ok found
    → FirstMatch cluster_name cluster_id items found
unfolding first_match
first_match-FirstMatch cluster_name cluster_id [] found h = cc
first_match-FirstMatch cluster_name cluster_id (item ∷ items) found h =
    elim (Bool-cases (matches cluster_name cluster_id item)) [
      | inl match ↦ record {
        before = [];
        item = item;
        after = items;
        split = refl;
        passed_over = tt;
        matching = (matches_iff cluster_name cluster_id item).0 match;
        has_namespace = ap (λ n. n.hc_namespace) (sym (inner (rw match at h)));
        has_hcp_namespace = ap (λ n. n.hcp_namespace) (sym (inner (rw match at h)));
        has_name = ap (λ n. n.cluster_name) (sym (inner (rw match at h)));
      }
      | inr other ↦
          behind other (first_match-FirstMatch cluster_name cluster_id items found (rw other at h))
    ]
  where
    inner : {m n : HcpNamespaces} → Path (Result HcpError HcpNamespaces) (ok m) (ok n) → m ≡ n
    inner h = cc

    behind :
        matches cluster_name cluster_id item ≡ false
        → FirstMatch cluster_name cluster_id items found
        → FirstMatch cluster_name cluster_id (item ∷ items) found
    behind other rest = record {
      before = item ∷ rest.before;
      item = rest.item;
      after = rest.after;
      split = ap (λ l. item ∷ l) rest.split;
      passed_over =
          (λ k. clash ((matches_iff cluster_name cluster_id item).1 k) other, rest.passed_over);
      matching = rest.matching;
      has_namespace = rest.has_namespace;
      has_hcp_namespace = rest.has_hcp_namespace;
      has_name = rest.has_name;
    }

-- When ResolveHCPNamespaces succeeds, the listing did, and the first object of the listing whose name
-- is the wanted one, or whose namespace is longer than the ID and ends in it, where the ID has more than
-- eight bytes, gives the result: its namespace, its namespace and name with a dash between them, and its
-- name.
pub resolve_hcp_namespaces-FirstMatch :
    (answer : Result String (List HostedCluster)) (cluster_name cluster_id : String)
    (found : HcpNamespaces)
    → resolve_hcp_namespaces answer cluster_name cluster_id ≡ ok found
    → (items : List HostedCluster) × (answer ≡ ok items)
      × FirstMatch cluster_name cluster_id items found
unfolding resolve_hcp_namespaces
resolve_hcp_namespaces-FirstMatch (err e) cluster_name cluster_id found h = cc
resolve_hcp_namespaces-FirstMatch (ok items) cluster_name cluster_id found h =
    (items, refl, first_match-FirstMatch cluster_name cluster_id items found h)
