-- ===== src/Verifiers/Rhobs/Metrics/Samples.antt =====
-- The answers that the checks on metrics of pkg/verifiers/rhobs.go tell apart.
use openshift_online_rosa_e.Base.{
  String, ◌≡◌, refl, sym, ap, ◌⊎◌, ◌∙◌, ◌↔◌, ◌==◌, eq_iff, List, [], ◌∷◌, Option, none, some,
  Bool-cases, inl, inr, arith, clash,
}
use openshift_online_rosa_e.Unstructured.{Value, Fields, get_string?, get_map?, get_slice?}
use openshift_online_rosa_e.Verifiers.Rhobs.Metrics.{
  Answer, unsuccessful, without_data, without_samples, with_samples, samples_answer, data_answer,
  status_answer, answer_of,
}

-- The status success, and a sample in the data
pub record HasSamples (result : Fields) : Type 0 where
  pub succeeded : get_string? "status" result ≡ some "success"
  pub fields : Fields
  pub has_data : get_map? "data" result ≡ some fields
  pub first : Value
  pub rest : List Value
  pub has_result : get_slice? "result" fields ≡ some (first ∷ rest)

-- The status success, and no sample: the data is missing, or has no result, or an empty one.
pub record NoSamples (result : Fields) : Type 0 where
  pub succeeded : get_string? "status" result ≡ some "success"
  pub absent :
      (get_map? "data" result ≡ none)
      ⊎ ((fields : Fields) × (get_map? "data" result ≡ some fields)
          × ((get_slice? "result" fields ≡ none) ⊎ (get_slice? "result" fields ≡ some [])))

samples_answer-with_samples :
    (found : Option (List Value))
    → samples_answer found ≡ with_samples
    → (v : Value) × (vs : List Value) × (found ≡ some (v ∷ vs))
samples_answer-with_samples none h = cc
samples_answer-with_samples (some []) h = cc
samples_answer-with_samples (some (v ∷ vs)) h = (v, vs, refl)

data_answer-with_samples :
    (found : Option Fields)
    → data_answer found ≡ with_samples
    → (fields : Fields) × (found ≡ some fields)
      × (v : Value) × (vs : List Value) × (get_slice? "result" fields ≡ some (v ∷ vs))
data_answer-with_samples none h = cc
data_answer-with_samples (some fields) h =
    let (v, vs, listed) = samples_answer-with_samples (get_slice? "result" fields) h in
    (fields, refl, v, vs, listed)

status_answer_iff :
    (found : Option String) (rest : Answer)
    → (status_answer found rest ≡ with_samples) ↔ ((found ≡ some "success") × (rest ≡ with_samples))
status_answer_iff none rest = (λ h. cc, λ h. cc (h.0))
status_answer_iff (some status) rest = elim (Bool-cases (status == "success")) [
  | inl same ↦ rw same ((λ h. (ap some ((eq_iff status "success").0 same), h), λ h. h.1))
  | inr differs ↦
      rw differs ((λ h. cc, λ h. clash ((eq_iff status "success").1 (inner (h.0))) differs))
]
  where
    inner : some status ≡ some "success" → status ≡ "success"
    inner h = ground arith

pub answer_of_iff : (result : Fields) → (answer_of result ≡ with_samples) ↔ HasSamples result
unfolding answer_of
answer_of_iff result =
    let judged =
      status_answer_iff (get_string? "status" result) (data_answer (get_map? "data" result)) in
    (
      λ h.
          let (fields, found, v, vs, listed) =
            data_answer-with_samples (get_map? "data" result) (judged.0 h).1 in
          record {
            succeeded = (judged.0 h).0;
            fields = fields;
            has_data = found;
            first = v;
            rest = vs;
            has_result = listed;
          },
      λ h. judged.1 (h.succeeded, ap data_answer h.has_data ∙ ap samples_answer h.has_result),
    )

NoData : Option Fields → Type 0
NoData found =
    (found ≡ none)
    ⊎ ((fields : Fields) × (found ≡ some fields)
        × ((get_slice? "result" fields ≡ none) ⊎ (get_slice? "result" fields ≡ some [])))

samples_answer-without_samples :
    (found : Option (List Value))
    → samples_answer found ≡ without_samples
    → (found ≡ none) ⊎ (found ≡ some [])
samples_answer-without_samples none h = inl refl
samples_answer-without_samples (some []) h = inr refl
samples_answer-without_samples (some (v ∷ vs)) h = cc

data_answer-NoData :
    (found : Option Fields)
    → (data_answer found ≡ without_data) ⊎ (data_answer found ≡ without_samples)
    → NoData found
unfolding NoData
data_answer-NoData none h = inl refl
data_answer-NoData (some fields) (inl h) = absurd (sampled (get_slice? "result" fields) h)
  where
    sampled : (found : Option (List Value)) → samples_answer found ≡ without_data → ⊥
    sampled none h = cc
    sampled (some []) h = cc
    sampled (some (v ∷ vs)) h = cc
data_answer-NoData (some fields) (inr h) =
    inr (fields, refl, samples_answer-without_samples (get_slice? "result" fields) h)

status_answer-success :
    (found : Option String) (rest : Answer)
    → (status_answer found rest ≡ unsuccessful → ⊥)
    → (found ≡ some "success") × (status_answer found rest ≡ rest)
status_answer-success none rest h = absurd (h refl)
status_answer-success (some status) rest h = elim (Bool-cases (status == "success")) [
  | inl same ↦ (ap some ((eq_iff status "success").0 same), rw same refl)
  | inr differs ↦ absurd (h (rw differs refl))
]

pub answer_of-NoSamples :
    (result : Fields)
    → (answer_of result ≡ without_data) ⊎ (answer_of result ≡ without_samples)
    → NoSamples result
unfolding answer_of NoData
answer_of-NoSamples result h =
    let rest = data_answer (get_map? "data" result) in
    let (succeeded, same) = status_answer-success (get_string? "status" result) rest (failed h) in
    record {
      succeeded = succeeded;
      absent =
          data_answer-NoData (get_map? "data" result)
            (elim h [ inl k ↦ inl (sym same ∙ k) | inr k ↦ inr (sym same ∙ k) ]);
    }
  where
    failed : {a : Answer} → (a ≡ without_data) ⊎ (a ≡ without_samples) → a ≡ unsuccessful → ⊥
    failed (inl h) k = cc
    failed (inr h) k = cc
