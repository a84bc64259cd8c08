-- ===== src/Base/Lists.antt =====
-- Lists measured by native numbers, tests on all and some elements, and predicates by recursion.
use Prim.Native.Nat.{ℕ, suc, ◌+◌, ◌≤◌}
use mathlib.Core.Path.{◌≡◌, refl, ap}
use mathlib.Core.Logic.{◌↔◌, ◌⊎◌, inl, inr}
use mathlib.Core.Bool.{Bool, true, false, not, ◌&&◌, ◌||◌}
use mathlib.Core.Option.{Option, none, some}
use mathlib.Core.List.{List, [], ◌∷◌, ◌++◌, map}
use native.Mathlib.Omega.{arith}
use openshift_online_rosa_e.Base.Tests.{if◌then◌else◌, Bool-cases, false-ne-true}

module _ {ℓ} {A : Type ℓ} where
  abbrev pub length : List A → ℕ
  length [] = 0
  length (x ∷ xs) = suc (length xs)

  abbrev pub head? : List A → Option A
  head? [] = none
  head? (x ∷ xs) = some x

  -- The elements that pass a test, in order: `for _, x := range xs { if p(x) { ys = append(ys, x) } }`.
  abbrev pub select : (A → Bool) → List A → List A
  select p [] = []
  select p (x ∷ xs) = let rest = select p xs in if p x then x ∷ rest else rest

  abbrev pub any : (A → Bool) → List A → Bool
  any p [] = false
  any p (x ∷ xs) = p x || any p xs

  abbrev pub all : (A → Bool) → List A → Bool
  all p [] = true
  all p (x ∷ xs) = p x && all p xs

  abbrev pub All {κ} : (A → Type κ) → List A → Type κ
  All P [] = Unit
  All P (x ∷ xs) = P x × All P xs

  abbrev pub Any : (A → Type 0) → List A → Type 0
  Any P [] = ⊥
  Any P (x ∷ xs) = P x ⊎ Any P xs

module _ {ℓ} {A : Type ℓ} where
  pub length-append : (xs ys : List A) → length (xs ++ ys) ≡ length xs + length ys
  length-append [] ys = omega arith
  length-append (x ∷ xs) ys = omega (arith, length-append xs ys)

  pub length-map {κ} : {B : Type κ} (f : A → B) (xs : List A) → length (map f xs) ≡ length xs
  length-map f [] = refl
  length-map f (x ∷ xs) = ap suc (length-map f xs)

  pub length-select : (p : A → Bool) (xs : List A) → length (select p xs) ≤ length xs
  length-select p [] = omega arith
  length-select p (x ∷ xs) = ground (arith, length-select p xs)

  pub select-eq-nil : (p : A → Bool) (xs : List A) → (select p xs ≡ []) ↔ (any p xs ≡ false)
  select-eq-nil p [] = ground arith
  select-eq-nil p (x ∷ xs) = ground (arith, select-eq-nil p xs)

and_left : (a b : Bool) → (a && b) ≡ true → a ≡ true
and_left a b h = ground arith

and_right : (a b : Bool) → (a && b) ≡ true → b ≡ true
and_right a b h = ground arith

and_intro : (a b : Bool) → a ≡ true → b ≡ true → (a && b) ≡ true
and_intro a b h k = ground arith

or_left : (a b : Bool) → a ≡ true → (a || b) ≡ true
or_left a b h = ground arith

or_right : (a b : Bool) → b ≡ true → (a || b) ≡ true
or_right a b h = ground arith

module _ {ℓ} {A : Type ℓ} {p : A → Bool} {P : A → Type 0}
    (decides : (x : A) → (p x ≡ true) ↔ P x) where
  -- A test that decides a predicate decides it on the elements of a list.
  pub all_iff : (xs : List A) → (all p xs ≡ true) ↔ All P xs
  all_iff [] = (λ _. tt, λ _. refl)
  all_iff (x ∷ xs) = (
    λ h. ((decides x).0 (and_left (p x) _ h), (all_iff xs).0 (and_right (p x) _ h)),
    λ h. and_intro (p x) _ ((decides x).1 h.0) ((all_iff xs).1 h.1),
  )

  pub any_iff : (xs : List A) → (any p xs ≡ true) ↔ Any P xs
  any_iff [] = (λ h. false-ne-true h, λ h. absurd h)
  any_iff (x ∷ xs) = (
    λ h. elim (Bool-cases (p x)) [
      | inl here ↦ inl ((decides x).0 here)
      | inr absent ↦ inr ((any_iff xs).0 (rw absent at h))
    ],
    elim [
      | inl here ↦ or_left (p x) _ ((decides x).1 here)
      | inr later ↦ or_right (p x) _ ((any_iff xs).1 later)
    ],
  )

module _ {ℓ} {A : Type ℓ} where
  pub select-eq-nil_iff_all :
      (p : A → Bool) (xs : List A) → (select p xs ≡ []) ↔ (all (λ x. not (p x)) xs ≡ true)
  select-eq-nil_iff_all p [] = ground arith
  select-eq-nil_iff_all p (x ∷ xs) = ground (arith, select-eq-nil_iff_all p xs)

  pub append-eq-nil_iff : (xs ys : List A) → (xs ++ ys ≡ []) ↔ ((xs ≡ []) × (ys ≡ []))
  append-eq-nil_iff [] ys = (λ h. (refl, h), λ h. h.1)
  append-eq-nil_iff (x ∷ xs) ys = (λ h. cc, λ h. cc)
