-- ===== src/Config/Lists.antt =====
-- pkg/config/config.go: the two settings that are lists.
use openshift_online_rosa_e.Base.{
  String, ◌≡◌, ◌≢◌, sym, ap, ◌∙◌, ◌==◌, eq_iff, List, [], All, ok, Bool-cases, inl, inr,
}
use openshift_online_rosa_e.Base.Text.{split_commas, join}
use openshift_online_rosa_e.Base.Text.Splits.{HasNoComma, split_commas-join}
use openshift_online_rosa_e.Config.{Config, Sources, override, overridden, load}
use openshift_online_rosa_e.Config.Precedence.{load-Loaded}

-- A list that a variable can hold: neither empty nor of one empty text, and without commas
pub record Listable (parts : List String) : Type 0 where
  pub given : parts ≢ []
  pub named : join parts "," ≢ ""
  pub plain : All HasNoComma parts

override-join :
    (parts field : List String) (v : String)
    → Listable parts
    → v ≡ join parts ","
    → override v split_commas field ≡ parts
override-join parts field v listable h = elim (Bool-cases (v == "")) [
  | inl unset ↦ absurd (listable.named (sym h ∙ (eq_iff v "").0 unset))
  | inr set ↦ rw set (ap split_commas h ∙ split_commas-join parts listable.given listable.plain)
]

-- Load reads back what was written: where SUBNET_IDS and EXCLUDE_CLUSTER_OPERATORS hold lists of texts
-- without commas, joined by commas, and not just empty, these are the lists of the loaded configuration.
pub load-join :
    (sources : Sources) (cfg : Config) (subnets operators : List String)
    → Listable subnets
    → Listable operators
    → sources.getenv "SUBNET_IDS" ≡ join subnets ","
    → sources.getenv "EXCLUDE_CLUSTER_OPERATORS" ≡ join operators ","
    → load sources ≡ ok cfg
    → (cfg.subnet_ids ≡ subnets) × (cfg.exclude_cluster_operators ≡ operators)
unfolding overridden
load-join sources cfg subnets operators some_subnets some_operators subnets_set operators_set h =
    let loaded = load-Loaded sources cfg h in
    (
      ap (λ c. c.subnet_ids) (sym loaded.settled)
          ∙ override-join subnets loaded.base.subnet_ids (sources.getenv "SUBNET_IDS") some_subnets
              subnets_set,
      ap (λ c. c.exclude_cluster_operators) (sym loaded.settled)
          ∙ override-join operators loaded.base.exclude_cluster_operators
              (sources.getenv "EXCLUDE_CLUSTER_OPERATORS") some_operators operators_set,
    )
