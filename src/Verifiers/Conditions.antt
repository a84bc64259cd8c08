-- ===== src/Verifiers/Conditions.antt =====
-- The conditions that the checks of pkg/verifiers read, typed and untyped.
use openshift_online_rosa_e.Base.{String, ◌≡◌, ◌↔◌, Bool, true, ◌&&◌, ◌==◌, eq_iff, arith}
use openshift_online_rosa_e.Unstructured.{Fields, get_string}

abbrev pub ApiError : Type 0
ApiError = String

-- A condition of a Kubernetes object
pub record Condition : Type 0 where
  pub condition_type : String
  pub status : String

abbrev pub is_condition : String → String → Condition → Bool
is_condition type status c = (c.condition_type == type) && (c.status == status)

abbrev pub IsCondition : String → String → Condition → Type 0
IsCondition type status c = (c.condition_type ≡ type) × (c.status ≡ status)

pub is_condition_iff :
    (type status : String) (c : Condition)
    → (is_condition type status c ≡ true) ↔ IsCondition type status c
is_condition_iff type status c =
    ground (arith, eq_iff c.condition_type type, eq_iff c.status status)

-- `condType, _ := cond["type"].(string)` and the status
abbrev pub map_type : Fields → String
map_type m = get_string "type" m

abbrev pub map_status : Fields → String
map_status m = get_string "status" m

abbrev pub is_map_condition : String → String → Fields → Bool
is_map_condition type status m = (map_type m == type) && (map_status m == status)

abbrev pub IsMapCondition : String → String → Fields → Type 0
IsMapCondition type status m = (map_type m ≡ type) × (map_status m ≡ status)

pub is_map_condition_iff :
    (type status : String) (m : Fields)
    → (is_map_condition type status m ≡ true) ↔ IsMapCondition type status m
is_map_condition_iff type status m =
    ground (arith, eq_iff (map_type m) type, eq_iff (map_status m) status)
