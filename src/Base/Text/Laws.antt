-- ===== src/Base/Text/Laws.antt =====
-- What the text functions mean: prefixes and suffixes as equations of texts.
use Prim.Native.Char.{Char, code}
use Prim.Native.String.{String, [], ◌∷◌, ◌++◌, count}
use mathlib.Core.Path.{◌≡◌, refl, sym, ap, ◌∙◌, ap₂}
use mathlib.Core.Logic.{◌↔◌, inl, inr}
use mathlib.Core.Bool.{true, false}
use native.Mathlib.Omega.{arith}
use text.Mathlib.Text.{◌==◌}
use text.Mathlib.TextEquality.{eq_iff, Char-path}
use text.Mathlib.TextPositions.{eq_refl}
use text.Mathlib.TextLemmas.{nil-append, cons-append, length-append, length-cons}
use openshift_online_rosa_e.Base.Tests.{eqb, eqb_iff, Bool-cases, &&-eq-true}
use openshift_online_rosa_e.Base.Text.{has_prefix, has_suffix, trim_suffix}

pub has_prefix-append : (p r : String) → has_prefix (p ++ r) p ≡ true
unfolding has_prefix
has_prefix-append [] r = refl
has_prefix-append (c ∷ p) r =
    rw (cons-append c p r, has_prefix)
      (ground (arith, eqb_iff (code c) (code c), has_prefix-append p r))

pub has_prefix_rest : (s p : String) → has_prefix s p ≡ true → (r : String) × (s ≡ p ++ r)
unfolding has_prefix
has_prefix_rest s [] h = (s, sym (nil-append s))
has_prefix_rest [] (d ∷ p) h = cc
has_prefix_rest (c ∷ s) (d ∷ p) h =
    let parts = (&&-eq-true (eqb (code c) (code d)) (has_prefix s p)).0 h in
    let same = Char-path c d ((eqb_iff (code c) (code d)).0 parts.0) in
    let (r, e) = has_prefix_rest s p parts.1 in (r, ap₂ ◌∷◌ same e ∙ sym (cons-append d p r))

pub has_prefix_iff : (s p : String) → (has_prefix s p ≡ true) ↔ ((r : String) × (s ≡ p ++ r))
has_prefix_iff s p = (has_prefix_rest s p, λ h. rw (h.1) (has_prefix-append p h.0))

-- A text is no proper rest of itself.
cons-append-ne : (c : Char) (s t : String) → ((c ∷ (s ++ t)) == t) ≡ false
cons-append-ne c s t = elim (Bool-cases ((c ∷ (s ++ t)) == t)) [
  | inr differs ↦ differs
  | inl same ↦ absurd (
      omega (
        arith,
        ap count ((eq_iff (c ∷ (s ++ t)) t).0 same),
        length-append s t,
        length-cons c (s ++ t),
      ))
]

has_suffix_self : (t : String) → has_suffix t t ≡ true
unfolding has_suffix
has_suffix_self [] = eq_refl []
has_suffix_self (c ∷ t) = rw (eq_refl (c ∷ t))

pub has_suffix-append : (s t : String) → has_suffix (s ++ t) t ≡ true
unfolding has_suffix
has_suffix-append [] t = rw nil-append (has_suffix_self t)
has_suffix-append (c ∷ s) t = rw (cons-append, has_suffix) (ground (arith, has_suffix-append s t))

-- A text with the suffix `t` is some text in front of `t`.
pub has_suffix_front : (s t : String) → has_suffix s t ≡ true → (r : String) × (s ≡ r ++ t)
unfolding has_suffix
has_suffix_front [] t h = ([], (eq_iff [] t).0 h ∙ sym (nil-append t))
has_suffix_front (c ∷ s) t h = elim (Bool-cases ((c ∷ s) == t)) [
  | inl same ↦ ([], (eq_iff (c ∷ s) t).0 same ∙ sym (nil-append t))
  | inr differs ↦
      let (r, e) = has_suffix_front s t (ground arith) in
      (c ∷ r, ap (λ u. c ∷ u) e ∙ sym (cons-append c r t))
]

trim_suffix_self : (t : String) → trim_suffix t t ≡ []
unfolding trim_suffix
trim_suffix_self [] = refl
trim_suffix_self (c ∷ t) = rw (eq_refl (c ∷ t))

pub trim_suffix-append : (s t : String) → trim_suffix (s ++ t) t ≡ s
unfolding trim_suffix
trim_suffix-append [] t = rw nil-append (trim_suffix_self t)
trim_suffix-append (c ∷ s) t =
    rw cons-append (rw (cons-append-ne c s t) (ap (λ u. c ∷ u) (trim_suffix-append s t)))

pub trim_suffix_of_absent : (s t : String) → has_suffix s t ≡ false → trim_suffix s t ≡ s
unfolding trim_suffix has_suffix
trim_suffix_of_absent [] t h = refl
trim_suffix_of_absent (c ∷ s) t h = ground (arith, trim_suffix_of_absent s t)
