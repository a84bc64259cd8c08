-- ===== src/Verifiers/Rhobs/Cardinality/Scalars.antt =====
-- pkg/verifiers/rhobs.go: what `extractScalarValue` reads.
use openshift_online_rosa_e.Base.{
  String, ◌≡◌, refl, ap, List, [], ◌∷◌, Result, ok, Option, none, some,
}
use openshift_online_rosa_e.Unstructured.{Value, Fields, as_string, as_map, get_map?, get_slice?}
use openshift_online_rosa_e.Verifiers.Rhobs.Cardinality.{
  Floats, ExtractError, second_of, scanned, scan_text, scan_value, scalar_of_map, scalar_of_slice,
  scalar_of_data, extract_scalar_value,
}

pub second_of-some :
    (values : Option (List Value)) (v : Value)
    → second_of values ≡ some v
    → (time : Value) × (more : List Value) × (values ≡ some (time ∷ v ∷ more))
second_of-some none v h = cc
second_of-some (some []) v h = cc
second_of-some (some (time ∷ [])) v h = cc
second_of-some (some (time ∷ w ∷ more)) v h =
    (time, more, ap (λ x. some (time ∷ x ∷ more)) (inner h))
  where
    inner : {x y : Value} → Path (Option Value) (some x) (some y) → x ≡ y
    inner k = cc

module _ {F : Type 0} (floats : Floats F) where
  -- The number is scanned from the text that stands second in the value of the result's first item.
  pub record HoldsScalar (result : Fields) (number : F) : Type 0 where
    pub fields : Fields
    pub has_data : get_map? "data" result ≡ some fields
    pub first : Value
    pub rest : List Value
    pub has_result : get_slice? "result" fields ≡ some (first ∷ rest)
    pub entry : Fields
    pub is_map : as_map first ≡ some entry
    pub time : Value
    pub value : Value
    pub more : List Value
    pub has_value : get_slice? "value" entry ≡ some (time ∷ value ∷ more)
    pub digits : String
    pub is_text : as_string value ≡ some digits
    pub is_scanned : floats.scan digits ≡ some number

  scanned-ok :
      (s : String) (found : Option F) (f : F) → scanned floats s found ≡ ok f → found ≡ some f
  scanned-ok s none f h = cc
  scanned-ok s (some g) f h = ap some (inner h)
    where
      inner : {x y : F} → Path (Result ExtractError F) (ok x) (ok y) → x ≡ y
      inner k = cc

  scan_text-ok :
      (v : Value) (found : Option String) (f : F)
      → scan_text floats v found ≡ ok f
      → (digits : String) × (found ≡ some digits) × (floats.scan digits ≡ some f)
  scan_text-ok v none f h = cc
  scan_text-ok v (some s) f h = (s, refl, scanned-ok s (floats.scan s) f h)

  scan_value-ok :
      (found : Option Value) (f : F)
      → scan_value floats found ≡ ok f
      → (value : Value) × (found ≡ some value)
        × (digits : String) × (as_string value ≡ some digits)
        × (floats.scan digits ≡ some f)
  scan_value-ok none f h = cc
  scan_value-ok (some v) f h =
      let (digits, is_text, is_scanned) = scan_text-ok v (as_string v) f h in
      (v, refl, digits, is_text, is_scanned)

  scalar_of_map-ok :
      (found : Option Fields) (f : F)
      → scalar_of_map floats found ≡ ok f
      → (entry : Fields) × (found ≡ some entry)
        × (scan_value floats (second_of (get_slice? "value" entry)) ≡ ok f)
  scalar_of_map-ok none f h = cc
  scalar_of_map-ok (some entry) f h = (entry, refl, h)

  scalar_of_slice-ok :
      (found : Option (List Value)) (f : F)
      → scalar_of_slice floats found ≡ ok f
      → (first : Value) × (rest : List Value) × (found ≡ some (first ∷ rest))
        × (scalar_of_map floats (as_map first) ≡ ok f)
  scalar_of_slice-ok none f h = cc
  scalar_of_slice-ok (some []) f h = cc
  scalar_of_slice-ok (some (first ∷ rest)) f h = (first, rest, refl, h)

  scalar_of_data-ok :
      (found : Option Fields) (f : F)
      → scalar_of_data floats found ≡ ok f
      → (fields : Fields) × (found ≡ some fields)
        × (scalar_of_slice floats (get_slice? "result" fields) ≡ ok f)
  scalar_of_data-ok none f h = cc
  scalar_of_data-ok (some fields) f h = (fields, refl, h)

  pub extract_scalar_value-HoldsScalar :
      (result : Fields) (f : F) → extract_scalar_value floats result ≡ ok f → HoldsScalar result f
  unfolding extract_scalar_value
  extract_scalar_value-HoldsScalar result f h =
      let (fields, has_data, of_slice) = scalar_of_data-ok (get_map? "data" result) f h in
      let (first, rest, has_result, of_map) =
        scalar_of_slice-ok (get_slice? "result" fields) f of_slice in
      let (entry, is_map, of_value) = scalar_of_map-ok (as_map first) f of_map in
      let (value, second, digits, is_text, is_scanned) =
        scan_value-ok (second_of (get_slice? "value" entry)) f of_value in
      let (time, more, has_value) = second_of-some (get_slice? "value" entry) value second in
      record {
        fields = fields;
        has_data = has_data;
        first = first;
        rest = rest;
        has_result = has_result;
        entry = entry;
        is_map = is_map;
        time = time;
        value = value;
        more = more;
        has_value = has_value;
        digits = digits;
        is_text = is_text;
        is_scanned = is_scanned;
      }
