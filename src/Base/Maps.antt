-- ===== src/Base/Maps.antt =====
-- Go's maps, as lists of entries in the order of insertion, and the unspecified order of a range over one.
use mathlib.Core.Path.{◌≡◌, refl, ap, subst, ◌∙◌}
use mathlib.Core.Logic.{◌↔◌}
use mathlib.Core.Bool.{Bool, true}
use mathlib.Core.Option.{Option, none, some}
use mathlib.Core.List.{List, [], ◌∷◌, Permᴰ}
use mathlib.Core.List.Permᴰ
use native.Mathlib.Omega.{arith}
use text.Mathlib.Text.{◌==◌}
use text.Mathlib.TextEquality.{eq_iff}
use Prim.Native.String.{String}
use openshift_online_rosa_e.Base.Tests.{if◌then◌else◌}
use openshift_online_rosa_e.Base.Lists.{All}

-- A type whose values can be compared, as Go's `==` does
pub record Key {ℓ} (K : Type ℓ) : Type ℓ where
  pub same : K → K → Bool
  pub same_iff : (a b : K) → (same a b ≡ true) ↔ (a ≡ b)

instance abbrev pub string_key : Key String
string_key = record { same = ◌==◌; same_iff = eq_iff }

abbrev pub Dict {ℓ κ} : Type ℓ → Type κ → Type (ℓ ⊔ κ)
Dict K V = List (K × V)

module _ {ℓ κ} {K : Type ℓ} {V : Type κ} ⦃key : Key K⦄ where
  -- `v, ok := m[k]`
  unfoldable pub lookup : K → Dict K V → Option V
  lookup k [] = none
  lookup k ((j, v) ∷ entries) = let rest = lookup k entries in if key.same k j then some v else rest

  -- `m[k] = v`
  unfoldable pub insert : K → V → Dict K V → Dict K V
  insert k v [] = (k, v) ∷ []
  insert k v ((j, w) ∷ entries) =
      let rest = insert k v entries in if key.same k j then (k, v) ∷ entries else (j, w) ∷ rest

  -- `for _, x := range xs { m[key(x)] = value(x) }`
  unfoldable pub insert_all : List (K × V) → Dict K V → Dict K V
  insert_all [] m = m
  insert_all ((k, v) ∷ entries) m = insert_all entries (insert k v m)

  -- The value of the last pair with a key
  abbrev pub last_or : Option V → K → List (K × V) → Option V
  last_or found k [] = found
  last_or found k ((j, v) ∷ pairs) = last_or (if key.same k j then some v else found) k pairs

  pub lookup-insert :
      (j k : K) (v : V) (m : Dict K V)
      → lookup j (insert k v m) ≡ (if key.same j k then some v else lookup j m)
  unfolding lookup insert
  lookup-insert j k v [] = ground arith
  lookup-insert j k v ((i, w) ∷ m) =
      ground (arith, lookup-insert j k v m, key.same_iff j k, key.same_iff k i, key.same_iff j i)

  -- A map that is filled by a loop holds, for each key, the value of the last pair with that key.
  pub lookup-insert_all :
      (k : K) (pairs : List (K × V)) (m : Dict K V)
      → lookup k (insert_all pairs m) ≡ last_or (lookup k m) k pairs
  unfolding insert_all
  lookup-insert_all k [] m = refl
  lookup-insert_all k ((j, v) ∷ pairs) m =
      lookup-insert_all k pairs (insert j v m)
      ∙ ap (λ found. last_or found k pairs) (lookup-insert k j v m)

module _ {ℓ} {A : Type ℓ} (P : A → Type 0) where
  -- What holds of all entries holds of them in any order.
  pub All-Permᴰ : {xs ys : List A} → Permᴰ xs ys → All P xs → All P ys
  All-Permᴰ Permᴰ.nil h = h
  All-Permᴰ (Permᴰ.cons e p) h = (subst P e h.0, All-Permᴰ p h.1)
  All-Permᴰ (Permᴰ.swap e f) h = (subst P f h.1.0, (subst P e h.0, h.1.1))
  All-Permᴰ (Permᴰ.trans p q) h = All-Permᴰ q (All-Permᴰ p h)

  pub All-Permᴰ_iff : {xs ys : List A} → Permᴰ xs ys → All P xs ↔ All P ys
  All-Permᴰ_iff p = (All-Permᴰ p, All-Permᴰ (Permᴰ.symm p))
