-- ===== src/Unstructured/Laws.antt =====
-- A path of names through objects, and what `getNestedField` finds at its end.
use openshift_online_rosa_e.Base.{
  String, ◌≡◌, Option, none, some, List, [], ◌∷◌, Result, ok, err, arith, ◌>>=◌, Result-cases, inl,
  inr, ap, ◌↔◌,
}
use openshift_online_rosa_e.Unstructured.{
  Value, ShapeError, nested_text, text, object, Fields, lookup, next_map, get_nested_value,
  get_nested_field,
}

-- The value `v` stands at the end of the path.
abbrev pub At : Fields → List String → Value → Type 0
At m [] v = ⊥
At m (last ∷ []) v = lookup last m ≡ some v
At m (name ∷ next ∷ names) v =
    (fields : Fields) × (lookup name m ≡ some (object fields)) × At fields (next ∷ names) v

next_map-object :
    (name : String) (o : Option Value) (fields : Fields)
    → next_map name o ≡ ok (some fields)
    → o ≡ some (object fields)
next_map-object name none fields h = cc
next_map-object name (some (object m)) fields h = ground arith
next_map-object name (some _) fields h = cc

get_nested_value-At :
    (m : Fields) (names : List String) (v : Value)
    → get_nested_value m names ≡ ok (some v)
    → At m names v
unfolding get_nested_value
get_nested_value-At m [] v h = cc
get_nested_value-At m (last ∷ []) v h = ground arith
get_nested_value-At m (name ∷ next ∷ names) v h =
    elim (Result-cases (next_map name (lookup name m))) [
      | inr (e, failed) ↦ cc (failed, rw (failed, get_nested_value) at h)
      | inl (none, nothing) ↦ cc (nothing, rw (nothing, get_nested_value) at h)
      | inl (some fields, found) ↦ (
        fields,
        next_map-object name (lookup name m) fields found,
        get_nested_value-At fields (next ∷ names) v (rw (found, get_nested_value) at h),
      )
    ]

At-get_nested_value :
    (m : Fields) (names : List String) (v : Value)
    → At m names v
    → get_nested_value m names ≡ ok (some v)
unfolding get_nested_value
At-get_nested_value m [] v h = absurd h
At-get_nested_value m (last ∷ []) v h = ap ok h
At-get_nested_value m (name ∷ next ∷ names) v h =
    rw (h.1, get_nested_value) (At-get_nested_value h.0 (next ∷ names) v h.2)

nested_text-text :
    (fields : List String) (r : Result ShapeError (Option Value)) (s : String)
    → (r >>= nested_text fields) ≡ ok (some s)
    → r ≡ ok (some (text s))
nested_text-text fields (err e) s h = cc
nested_text-text fields (ok none) s h = cc
nested_text-text fields (ok (some (text u))) s h = ground arith
nested_text-text fields (ok (some _)) s h = cc

-- `getNestedField` finds a text exactly where the path leads to it through objects.
pub get_nested_field-At :
    (m : Fields) (names : List String) (s : String)
    → (get_nested_field m names ≡ ok (some s)) ↔ At m names (text s)
unfolding get_nested_field
get_nested_field-At m names s = (
  λ h. get_nested_value-At m names (text s) (nested_text-text names _ s h),
  λ h. rw (At-get_nested_value m names (text s) h),
)
