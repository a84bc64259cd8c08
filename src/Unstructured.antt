-- ===== src/Unstructured.antt =====
-- Decoded JSON as pkg/verifiers reads it: `interface{}` values, type assertions on them, and the
-- helpers of clusteroperators.go and service_cluster.go.
pub mod Laws
use openshift_online_rosa_e.Base.{
  String, Bool, Option, none, some, List, [], ◌∷◌, ◌==◌, if◌then◌else◌, Result, ok, err, ◌>>=◌,
}

-- A number is kept as its text: the program asserts no number.
mutual
  pub data Value : Type 0 where
    null : Value
    boolean : Bool → Value
    number : String → Value
    text : String → Value
    array : Items → Value
    object : Fields → Value

  pub data Items : Type 0 where
    nil : Items
    cons : Value → Items → Items

  pub data Fields : Type 0 where
    end : Fields
    field : String → Value → Fields → Fields

-- `m[key]`, with its second result
unfoldable pub lookup : String → Fields → Option Value
lookup key end = none
lookup key (field k v fields) = if k == key then some v else lookup key fields

-- The type assertions `v.(string)`, `v.(bool)`, `v.(map[string]interface{})` and `v.([]interface{})`
abbrev pub as_string : Value → Option String
as_string (text s) = some s
as_string _ = none

abbrev pub as_bool : Value → Option Bool
as_bool (boolean b) = some b
as_bool _ = none

abbrev pub as_map : Value → Option Fields
as_map (object fields) = some fields
as_map _ = none

abbrev pub items_list : Items → List Value
items_list nil = []
items_list (cons v items) = v ∷ items_list items

abbrev pub as_slice : Value → Option (List Value)
as_slice (array items) = some (items_list items)
as_slice _ = none

abbrev pub and_then {ℓ κ} : {A : Type ℓ} {B : Type κ} → Option A → (A → Option B) → Option B
and_then none f = none
and_then (some a) f = f a

abbrev pub string_or_empty : Option String → String
string_or_empty none = ""
string_or_empty (some s) = s

-- `m[key].(string)` and its like: a missing key is a nil interface, which no assertion accepts.
unfoldable pub get_string? : String → Fields → Option String
unfolding lookup
get_string? key m = and_then (lookup key m) as_string

unfoldable pub get_bool? : String → Fields → Option Bool
unfolding lookup
get_bool? key m = and_then (lookup key m) as_bool

unfoldable pub get_map? : String → Fields → Option Fields
unfolding lookup
get_map? key m = and_then (lookup key m) as_map

unfoldable pub get_slice? : String → Fields → Option (List Value)
unfolding lookup
get_slice? key m = and_then (lookup key m) as_slice

-- `s, _ := m[key].(string)`
unfoldable pub get_string : String → Fields → String
unfolding get_string?
get_string key m = string_or_empty (get_string? key m)

-- The errors of the helpers
pub data ShapeError : Type 0 where
  condition_is_not_a_map : ShapeError
  field_is_not_a_map : String → ShapeError
  field_is_not_a_string : List String → ShapeError

-- The maps of a list of conditions; one that is no map is an error.
unfoldable pub condition_maps : List Value → Result ShapeError (List Fields)
condition_maps [] = ok []
condition_maps (cond ∷ conditions) = elim (as_map cond) [
  | none ↦ err condition_is_not_a_map
  | some m ↦ condition_maps conditions >>= λ rest. ok (m ∷ rest)
]

-- `getConditions`: `none` is its `found == false`.
unfoldable pub get_conditions : Fields → Result ShapeError (Option (List Fields))
unfolding condition_maps get_map? get_slice?
get_conditions obj = elim (and_then (get_map? "status" obj) (get_slice? "conditions")) [
  | none ↦ ok none
  | some conditions ↦ condition_maps conditions >>= λ result. ok (some result)
]

-- The map behind a name that is not the last one
abbrev pub next_map : String → Option Value → Result ShapeError (Option Fields)
next_map name none = ok none
next_map name (some (object fields)) = ok (some fields)
next_map name (some _) = err (field_is_not_a_map name)

-- `getNestedValue`: `none` is its `found == false`.
unfoldable pub get_nested_value : Fields → List String → Result ShapeError (Option Value)
unfolding lookup
get_nested_value current [] = ok none
get_nested_value current (last ∷ []) = ok (lookup last current)
get_nested_value current (name ∷ next ∷ names) = next_map name (lookup name current) >>= λ found.
    elim found [ none ↦ ok none | some fields ↦ get_nested_value fields (next ∷ names) ]

-- The assertion of `getNestedField` on the value that was found
abbrev pub nested_text : List String → Option Value → Result ShapeError (Option String)
nested_text fields none = ok none
nested_text fields (some (text s)) = ok (some s)
nested_text fields (some _) = err (field_is_not_a_string fields)

-- `getNestedField`
unfoldable pub get_nested_field : Fields → List String → Result ShapeError (Option String)
unfolding get_nested_value
get_nested_field obj fields = get_nested_value obj fields >>= nested_text fields
