-- ===== src/Base/Text/Equality.antt =====
-- Texts that differ, and guards that require a text.
use Prim.Native.String.{String}
use mathlib.Core.Path.{◌≡◌, ap}
use mathlib.Core.Logic.{◌≢◌, ◌↔◌, inl, inr}
use mathlib.Core.Bool.{false, not}
use mathlib.Core.Option.{some}
use native.Mathlib.Omega.{arith}
use text.Mathlib.Text.{◌==◌}
use text.Mathlib.TextEquality.{eq_iff}
use openshift_online_rosa_e.Base.Tests.{if◌then◌else◌, Bool-cases, clash}
use openshift_online_rosa_e.Base.Outcome.{Result, ok, err}

pub ==-eq-false : (s t : String) → s ≢ t → (s == t) ≡ false
==-eq-false s t h = elim (Bool-cases (s == t)) [
  | inl same ↦ absurd (h ((eq_iff s t).0 same))
  | inr differ ↦ differ
]

pub ==-eq-false_ne : (s t : String) → (s == t) ≡ false → s ≢ t
==-eq-false_ne s t h k = clash ((eq_iff s t).1 k) h

module _ {ℓ} {E : Type ℓ} where
  -- `if !ok || actual != expected { return ... }`, where there is a text
  pub unless_equal_iff :
      (actual expected : String) (e : E) (rest : Result E (Unit {0}))
      → ((if not (actual == expected) then err e else rest) ≡ ok tt)
        ↔ ((some actual ≡ some expected) × (rest ≡ ok tt))
  unless_equal_iff actual expected e rest = elim (Bool-cases (actual == expected)) [
    | inl same ↦ rw same ((λ h. (ap some ((eq_iff actual expected).0 same), h), λ h. h.1))
    | inr differs ↦
        rw differs ((λ h. cc, λ h. clash ((eq_iff actual expected).1 (inner (h.0))) differs))
  ]
    where
      inner : some actual ≡ some expected → actual ≡ expected
      inner h = ground arith
