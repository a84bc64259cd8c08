-- ===== src/Base/Reports.antt =====
-- Loops that collect what is wrong, and the error that is returned when something was.
use mathlib.Core.Path.{◌≡◌, refl, sym, ap, ◌∙◌}
use mathlib.Core.Logic.{◌↔◌, inl, inr}
use mathlib.Core.Bool.{Bool, true, false, not}
use mathlib.Core.Option.{Option, none, some}
use mathlib.Core.List.{List, [], ◌∷◌, ◌++◌}
use openshift_online_rosa_e.Base.Tests.{if◌then◌else◌, Option-cases}
use openshift_online_rosa_e.Base.Lists.{All}
use openshift_online_rosa_e.Base.Outcome.{Result, ok, err, ◌>>=◌, Result-cases}

abbrev pub put {ℓ} : {B : Type ℓ} → Option B → List B → List B
put none rest = rest
put (some b) rest = b ∷ rest

module _ {ℓ κ} {A : Type ℓ} {B : Type κ} where
  -- A loop that appends what is wrong with each element, if something is
  unfoldable pub collect : (A → Option B) → List A → List B
  collect f [] = []
  collect f (x ∷ xs) = put (f x) (collect f xs)

module _ {ℓ κ μ} {E : Type μ} {A : Type ℓ} {B : Type κ} where
  -- The same, where looking at an element may fail, and then the loop returns
  unfoldable pub gather_results : (A → Result E (List B)) → List A → Result E (List B)
  gather_results f [] = ok []
  gather_results f (x ∷ xs) = f x >>= λ first. gather_results f xs >>= λ rest. ok (first ++ rest)

module _ {ℓ κ} {E : Type ℓ} {A : Type κ} where
  -- `if len(xs) > 0 { return fmt.Errorf(...) }; return nil`
  abbrev pub report : (List A → E) → List A → Result E (Unit {0})
  report f [] = ok tt
  report f (x ∷ xs) = err (f (x ∷ xs))

  pub report_iff : (f : List A → E) (xs : List A) → (report f xs ≡ ok tt) ↔ (xs ≡ [])
  report_iff f [] = (λ _. refl, λ _. refl)
  report_iff f (x ∷ xs) = (λ h. cc, λ h. cc)

module _ {ℓ} {E : Type ℓ} where
  -- `if !b { return fmt.Errorf(...) }; return nil`
  abbrev pub require : Bool → E → Result E (Unit {0})
  require b e = if not b then err e else ok tt

  pub require_iff : (b : Bool) (e : E) → (require b e ≡ ok tt) ↔ (b ≡ true)
  require_iff true e = (λ _. refl, λ _. refl)
  require_iff false e = (λ h. cc, λ h. cc)

-- The call succeeded, with a value of which `P` holds.
abbrev pub OkAnd {ℓ κ} : {E : Type ℓ} {A : Type κ} → (A → Type 0) → Result E A → Type 0
OkAnd P (ok a) = P a
OkAnd P (err e) = ⊥

module _ {ℓ κ} {A : Type ℓ} {B : Type κ} {f : A → Option B} {P : A → Type 0}
    (decides : (x : A) → (f x ≡ none) ↔ P x) where
  pub collect-eq-nil : (xs : List A) → (collect f xs ≡ []) ↔ All P xs
  unfolding collect
  collect-eq-nil [] = (λ _. tt, λ _. refl)
  collect-eq-nil (x ∷ xs) = elim (Option-cases (f x)) [
    | inl e ↦
        rw e ((λ h. ((decides x).0 e, (collect-eq-nil xs).0 h), λ h. (collect-eq-nil xs).1 h.1))
    | inr (b, e) ↦ rw e ((λ h. cc, λ h. absurd (some-ne-none e ((decides x).1 h.0))))
  ]
    where
      some-ne-none : {b : B} → f x ≡ some b → f x ≡ none → ⊥
      some-ne-none h k = cc

  pub report-collect_iff {μ} :
      {E : Type μ} (g : List B → E) (xs : List A) → (report g (collect f xs) ≡ ok tt) ↔ All P xs
  report-collect_iff g xs = (
    λ h. (collect-eq-nil xs).0 ((report_iff g (collect f xs)).0 h),
    λ h. (report_iff g (collect f xs)).1 ((collect-eq-nil xs).1 h),
  )

module _ {ℓ κ μ} {E : Type μ} {A : Type ℓ} {B : Type κ} {f : A → Result E (List B)} {P : A → Type 0}
    (decides : (x : A) → (f x ≡ ok []) ↔ P x) where
  pub gather_results-eq-nil : (xs : List A) → (gather_results f xs ≡ ok []) ↔ All P xs
  unfolding gather_results
  gather_results-eq-nil [] = (λ _. tt, λ _. refl)
  gather_results-eq-nil (x ∷ xs) = elim (Result-cases (f x)) [
    | inr (e, k) ↦ rw k ((λ h. cc, λ h. absurd (err-ne-ok k ((decides x).1 h.0))))
    | inl ([], k) ↦ elim (Result-cases (gather_results f xs)) [
      | inr (e, l) ↦
          rw (k, l) ((λ h. cc, λ h. absurd (err-ne-ok_rest l ((gather_results-eq-nil xs).1 h.1))))
      | inl (rest, l) ↦
          rw (k, l)
            ((
              λ h. ((decides x).0 k, (gather_results-eq-nil xs).0 (l ∙ h)),
              λ h. sym l ∙ (gather_results-eq-nil xs).1 h.1,
            ))
    ]
    | inl (b ∷ bs, k) ↦ elim (Result-cases (gather_results f xs)) [
      | inr (e, l) ↦
          rw (k, l) ((λ h. cc, λ h. absurd (err-ne-ok_rest l ((gather_results-eq-nil xs).1 h.1))))
      | inl (rest, l) ↦ rw (k, l) ((λ h. cc, λ h. absurd (cons-ne-nil k ((decides x).1 h.0))))
    ]
  ]
    where
      err-ne-ok : {e : E} → f x ≡ err e → f x ≡ ok [] → ⊥
      err-ne-ok h k = cc

      err-ne-ok_rest : {e : E} → gather_results f xs ≡ err e → gather_results f xs ≡ ok [] → ⊥
      err-ne-ok_rest h k = cc

      cons-ne-nil : {b : B} {bs : List B} → f x ≡ ok (b ∷ bs) → f x ≡ ok [] → ⊥
      cons-ne-nil h k = cc

  pub report-gather_results_iff :
      (g : List B → E) (xs : List A) → ((gather_results f xs >>= report g) ≡ ok tt) ↔ All P xs
  report-gather_results_iff g xs = elim (Result-cases (gather_results f xs)) [
    | inr (e, k) ↦ rw k ((λ h. cc, λ h. absurd (failed k ((gather_results-eq-nil xs).1 h))))
    | inl (found, k) ↦ rw k (
        (
          λ h. (gather_results-eq-nil xs).0 (k ∙ ap ok ((report_iff g found).0 h)),
          λ h. (report_iff g found).1 (same k ((gather_results-eq-nil xs).1 h)),
        ))
  ]
    where
      failed : {e : E} → gather_results f xs ≡ err e → gather_results f xs ≡ ok [] → ⊥
      failed h k = cc

      same :
          {found : List B}
          → gather_results f xs ≡ ok found
          → gather_results f xs ≡ ok []
          → found ≡ []
      same h k = cc
