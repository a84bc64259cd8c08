-- ===== src/Base/Io.antt =====
-- Calls that change a state and may fail. What was done before a failure stays done, so the state
-- comes back beside an error too.
pub mod Laws
use mathlib.Core.List.{List, [], ◌∷◌, ◌++◌}
use openshift_online_rosa_e.Base.Outcome.{Result, ok, err}

abbrev pub Io {ℓ} : Type ℓ → Type ℓ → Type ℓ → Type ℓ
Io E S A = S → Result E A × S

module _ {ℓ} {E S A : Type ℓ} where
  abbrev pub pure : A → Io E S A
  pure a s = (ok a, s)

  abbrev pub raise : E → Io E S A
  raise e s = (err e, s)

  abbrev pub gets : (S → A) → Io E S A
  gets f s = (ok (f s), s)

module _ {ℓ} {E S : Type ℓ} where
  abbrev pub modify : (S → S) → Io E S (Unit {ℓ})
  modify f s = (ok tt, f s)

module _ {ℓ} {E S A B : Type ℓ} where
  abbrev pub proceed : (A → Io E S B) → Result E A × S → Result E B × S
  proceed f (ok a, s) = f a s
  proceed f (err e, s) = (err e, s)

  infixl 5 ◌>>=◌ ◌>>◌
  abbrev pub ◌>>=◌ : Io E S A → (A → Io E S B) → Io E S B
  ◌>>=◌ m f s = proceed f (m s)

  abbrev pub ◌>>◌ : Io E S A → Io E S B → Io E S B
  m >> n = m >>= λ _. n

module _ {ℓ} {E F S A : Type ℓ} where
  -- `fmt.Errorf("...: %w", err)` around a call's failure
  abbrev pub rewrap : (E → F) → Result E A × S → Result F A × S
  rewrap f (ok a, s) = (ok a, s)
  rewrap f (err e, s) = (err (f e), s)

  abbrev pub within : (E → F) → Io E S A → Io F S A
  within f m s = rewrap f (m s)

module _ {ℓ} {E S A : Type ℓ} where
  -- `for _, x := range xs { if err := body(x); err != nil { return err } }`
  unfoldable pub each : (A → Io E S (Unit {ℓ})) → List A → Io E S (Unit {ℓ})
  each body [] s = (ok tt, s)
  each body (x ∷ xs) s = proceed (λ _. each body xs) (body x s)

module _ {ℓ} {E S A B : Type ℓ} where
  -- A loop that appends what each round reports: `errs = append(errs, body(x)...)`
  unfoldable pub gather : (A → Io E S (List B)) → List A → Io E S (List B)
  gather body [] s = (ok [], s)
  gather body (x ∷ xs) s =
      proceed (λ first. gather body xs >>= λ rest. pure (first ++ rest)) (body x s)
