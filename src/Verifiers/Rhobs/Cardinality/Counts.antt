-- ===== src/Verifiers/Rhobs/Cardinality/Counts.antt =====
-- pkg/verifiers/rhobs.go: what `extractVectorValues` reads.
use openshift_online_rosa_e.Base.{
  String, ◌≡◌, refl, sym, ap, Option-cases, inl, inr, ok-injective, ◌∙◌, List, [], ◌∷◌, ok, Option,
  none, some, Dict, lookup, insert_all, lookup-insert_all, last_or, string_key, collect, put,
}
use openshift_online_rosa_e.Unstructured.{
  Value, Fields, as_string, as_map, get_string?, get_string, get_map?, get_slice?, string_or_empty,
}
use openshift_online_rosa_e.Verifiers.Rhobs.Cardinality.{
  Floats, count_of, count_of_text, count_of_value, count_of_metric, counts_of_slice, counts_of_data,
  second_of, store, store_counts, extract_vector_values,
}
use openshift_online_rosa_e.Verifiers.Rhobs.Cardinality.Scalars.{second_of-some}

module _ {F : Type 0} (floats : Floats F) where
  abbrev pub counts_in : String → List Value → List (String × F)
  counts_in label_key items = collect (λ item. count_of floats label_key (as_map item)) items

  store_counts-insert_all :
      (label_key : String) (items : List Value) (values : Dict String F)
      → store_counts floats label_key items values ≡ insert_all (counts_in label_key items) values
  unfolding store_counts insert_all collect
  store_counts-insert_all label_key [] values = refl
  store_counts-insert_all label_key (item ∷ items) values =
      store_counts-insert_all label_key items _ ∙ stored (count_of floats label_key (as_map item))
    where
      stored :
          (found : Option (String × F))
          → insert_all (counts_in label_key items) (store floats found values)
            ≡ insert_all (put found (counts_in label_key items)) values
      stored none = refl
      stored (some (label, f)) = refl

  -- extractVectorValues gives a label the number of the last item of the result that has the label and a
  -- number, and leaves out the labels without one: items that are malformed are passed over.
  pub lookup-extract_vector_values :
      (result fields : Fields) (items : List Value) (label_key label : String)
      → get_map? "data" result ≡ some fields
      → get_slice? "result" fields ≡ some items
      → (values : Dict String F) × (extract_vector_values floats result label_key ≡ ok values)
        × (lookup label values ≡ last_or none label (counts_in label_key items))
  unfolding extract_vector_values lookup
  lookup-extract_vector_values result fields items label_key label has_data has_result = (
    store_counts floats label_key items [],
    rw (has_data, has_result) refl,
    ap (lookup label) (store_counts-insert_all label_key items [])
        ∙ lookup-insert_all label (counts_in label_key items) [],
  )

  -- The item is a map with a metric, whose label this is, and with a value, whose second part this number
  -- is scanned from: the label is empty when it is missing or no text.
  pub record HasCount (label_key : String) (item : Value) (label : String) (number : F)
      : Type 0 where
    pub entry : Fields
    pub is_map : as_map item ≡ some entry
    pub metric : Fields
    pub has_metric : get_map? "metric" entry ≡ some metric
    pub is_label : label ≡ string_or_empty (get_string? label_key metric)
    pub time : Value
    pub value : Value
    pub more : List Value
    pub has_value : get_slice? "value" entry ≡ some (time ∷ value ∷ more)
    pub is_scanned : floats.scan (string_or_empty (as_string value)) ≡ some number

  -- The counts of the items that have one, in their order
  pub data Counted (label_key : String) : List Value → List (String × F) → Type 0 where
    no_item : Counted label_key [] []
    with_count :
        {items : List Value} {counts : List (String × F)} (item : Value) (label : String)
        (number : F)
        → HasCount label_key item label number
        → Counted label_key items counts
        → Counted label_key (item ∷ items) ((label, number) ∷ counts)
    without_count :
        {items : List Value} {counts : List (String × F)} (item : Value)
        → ((label : String) (number : F) → HasCount label_key item label number → ⊥)
        → Counted label_key items counts
        → Counted label_key (item ∷ items) counts

  count_of_text-some :
      (label : String) (found : Option F) (name : String) (f : F)
      → count_of_text floats label found ≡ some (name, f)
      → (name ≡ label) × (found ≡ some f)
  count_of_text-some label none name f h = cc
  count_of_text-some label (some g) name f h =
      let same = inner h in (sym (ap (λ p. p.0) same), ap (λ p. some (p.1)) same)
    where
      inner : {p q : String × F} → Path (Option (String × F)) (some p) (some q) → p ≡ q
      inner k = cc

  count_of_value-some :
      (label : String) (found : Option Value) (name : String) (f : F)
      → count_of_value floats label found ≡ some (name, f)
      → (name ≡ label)
        × (value : Value) × (found ≡ some value)
        × (floats.scan (string_or_empty (as_string value)) ≡ some f)
  count_of_value-some label none name f h = cc
  count_of_value-some label (some v) name f h =
      let (named, is_scanned) =
        count_of_text-some label (floats.scan (string_or_empty (as_string v))) name f h in
      (named, v, refl, is_scanned)

  count_of_metric-HasCount :
      (label_key : String) (item : Value) (entry : Fields) (found : Option Fields) (label : String)
      (number : F)
      → as_map item ≡ some entry
      → get_map? "metric" entry ≡ found
      → count_of_metric floats label_key entry found ≡ some (label, number)
      → HasCount label_key item label number
  unfolding get_string
  count_of_metric-HasCount label_key item entry none label number is_map has_metric h = cc
  count_of_metric-HasCount label_key item entry (some metric) label number is_map has_metric h =
      let (named, value, second, is_scanned) =
        count_of_value-some (get_string label_key metric) (second_of (get_slice? "value" entry))
          label number h in
      let (time, more, has_value) = second_of-some (get_slice? "value" entry) value second in
      record {
        entry = entry;
        is_map = is_map;
        metric = metric;
        has_metric = has_metric;
        is_label = named;
        time = time;
        value = value;
        more = more;
        has_value = has_value;
        is_scanned = is_scanned;
      }

  count_of-HasCount :
      (label_key : String) (item : Value) (found : Option Fields) (label : String) (number : F)
      → as_map item ≡ found
      → count_of floats label_key found ≡ some (label, number)
      → HasCount label_key item label number
  count_of-HasCount label_key item none label number is_map h = cc
  count_of-HasCount label_key item (some entry) label number is_map h =
      count_of_metric-HasCount label_key item entry (get_map? "metric" entry) label number is_map
        refl h

  HasCount-some :
      (label_key : String) (item : Value) (label : String) (number : F)
      → HasCount label_key item label number
      → (name : String) × (count_of floats label_key (as_map item) ≡ some (name, number))
  HasCount-some label_key item label number h =
      (get_string label_key h.metric, rw (h.is_map, h.has_metric, h.has_value, h.is_scanned) refl)

  counts_in-Counted :
      (label_key : String) (items : List Value)
      → Counted label_key items (counts_in label_key items)
  unfolding collect
  counts_in-Counted label_key [] = no_item
  counts_in-Counted label_key (item ∷ items) =
      elim (Option-cases (count_of floats label_key (as_map item))) [
        | inl absent ↦ rw absent (
            without_count item
              (λ label number k. nothing absent (HasCount-some label_key item label number k).1)
              (counts_in-Counted label_key items))
        | inr ((label, number), found) ↦ rw found (
            with_count item label number
              (count_of-HasCount label_key item (as_map item) label number refl found)
              (counts_in-Counted label_key items))
      ]
    where
      nothing :
          {c : String × F}
          → count_of floats label_key (as_map item) ≡ none
          → count_of floats label_key (as_map item) ≡ some c
          → ⊥
      nothing h k = cc

  -- The map that is made of the items of the result: the last count of a label stays.
  pub record HoldsCounts (label_key : String) (result : Fields) (values : Dict String F)
      : Type 0 where
    pub fields : Fields
    pub has_data : get_map? "data" result ≡ some fields
    pub items : List Value
    pub has_result : get_slice? "result" fields ≡ some items
    pub counts : List (String × F)
    pub counted : Counted label_key items counts
    pub inserted : values ≡ insert_all counts []

  counts_of_slice-ok :
      (label_key : String) (found : Option (List Value)) (values : Dict String F)
      → counts_of_slice floats label_key found ≡ ok values
      → (items : List Value) × (found ≡ some items)
        × (values ≡ store_counts floats label_key items [])
  counts_of_slice-ok label_key none values h = cc
  counts_of_slice-ok label_key (some items) values h =
      (items, refl, sym (ok-injective (store_counts floats label_key items []) values h))

  counts_of_data-ok :
      (label_key : String) (found : Option Fields) (values : Dict String F)
      → counts_of_data floats label_key found ≡ ok values
      → (fields : Fields) × (found ≡ some fields)
        × (counts_of_slice floats label_key (get_slice? "result" fields) ≡ ok values)
  counts_of_data-ok label_key none values h = cc
  counts_of_data-ok label_key (some fields) values h = (fields, refl, h)

  pub extract_vector_values-HoldsCounts :
      (label_key : String) (result : Fields) (values : Dict String F)
      → extract_vector_values floats result label_key ≡ ok values
      → HoldsCounts label_key result values
  unfolding extract_vector_values
  extract_vector_values-HoldsCounts label_key result values h =
      let (fields, has_data, of_slice) =
        counts_of_data-ok label_key (get_map? "data" result) values h in
      let (items, has_result, stored) =
        counts_of_slice-ok label_key (get_slice? "result" fields) values of_slice in
      record {
        fields = fields;
        has_data = has_data;
        items = items;
        has_result = has_result;
        counts = counts_in label_key items;
        counted = counts_in-Counted label_key items;
        inserted = stored ∙ store_counts-insert_all label_key items [];
      }
