-- ===== src/Base/Io/Laws.antt =====
-- Inversion of calls that succeeded, predicates that calls keep, and what a loop leaves behind.
use mathlib.Core.Path.{◌≡◌, refl, sym, ap, subst, ◌∙◌}
use mathlib.Core.List.{List, [], ◌∷◌, ◌++◌}
use native.Mathlib.Omega.{arith}
use openshift_online_rosa_e.Base.Outcome.{Result, ok, err}
use openshift_online_rosa_e.Base.Lists.{All, length}
use Prim.Native.Nat.{ℕ, ◌+◌, ◌*◌}
use openshift_online_rosa_e.Base.Io.{Io, pure, proceed, ◌>>=◌, ◌>>◌, rewrap, within, each, gather}

module _ {E S A B : Type 0} where
  -- A chain that succeeded has a first part that succeeded, and is the second part from there.
  pub proceed-ok :
      (f : A → Io E S B) (p : Result E A × S) {b : B}
      → (proceed f p).0 ≡ ok b
      → (a : A) × (p.0 ≡ ok a) × (proceed f p ≡ f a p.1)
  proceed-ok f (ok a, s) h = (a, refl, refl)
  proceed-ok f (err e, s) h = cc

module _ {E F S A : Type 0} where
  pub rewrap-ok : (f : E → F) (p : Result E A × S) {a : A} → (rewrap f p).0 ≡ ok a → p.0 ≡ ok a
  rewrap-ok f (ok a, s) h = ground arith
  rewrap-ok f (err e, s) h = cc

  pub rewrap-state : (f : E → F) (p : Result E A × S) → (rewrap f p).1 ≡ p.1
  rewrap-state f (ok a, s) = refl
  rewrap-state f (err e, s) = refl

module _ {E F S A B : Type 0} (f : E → F) (m : Io E S A) (k : A → Io F S B) where
  -- A wrapped call and what follows it, where both succeeded
  pub within-bind-ok :
      (s : S) {b : B}
      → ((within f m >>= k) s).0 ≡ ok b
      → (a : A) × ((m s).0 ≡ ok a) × ((within f m >>= k) s ≡ k a (m s).1)
  within-bind-ok s h =
      let (a, succeeded, e) = proceed-ok k (within f m s) h in
      (a, rewrap-ok f (m s) succeeded, e ∙ ap (k a) (rewrap-state f (m s)))

  pub within-bind-err :
      (s : S) {e : E} → (m s).0 ≡ err e → (within f m >>= k) s ≡ (err (f e), (m s).1)
  within-bind-err s h = rw h

-- Whether it succeeds or fails, `m` keeps `P` of the state.
pub record Keeps {E S A : Type 0} (P : S → Type 0) (m : Io E S A) : Type 0 where
  pub at : (s : S) → P s → P (m s).1

module _ {E S A B : Type 0} (P : S → Type 0) where
  pub Keeps-proceed :
      (f : A → Io E S B) (p : Result E A × S)
      → ((a : A) → Keeps P (f a))
      → P p.1
      → P (proceed f p).1
  Keeps-proceed f (ok a, s) kf h = (kf a).at s h
  Keeps-proceed f (err e, s) kf h = h

  pub Keeps-bind :
      (m : Io E S A) (f : A → Io E S B) → Keeps P m → ((a : A) → Keeps P (f a)) → Keeps P (m >>= f)
  Keeps-bind m f km kf = record { at = λ s h. Keeps-proceed f (m s) kf (km.at s h) }

module _ {E F S A : Type 0} (P : S → Type 0) where
  pub Keeps-within : (f : E → F) (m : Io E S A) → Keeps P m → Keeps P (within f m)
  Keeps-within f m km = record { at = λ s h. rw rewrap-state (km.at s h) }

module _ {E S A : Type 0} (P : S → Type 0) (body : A → Io E S (Unit {0}))
    (kb : (a : A) → Keeps P (body a)) where
  pub Keeps-each : (xs : List A) → Keeps P (each body xs)
  unfolding each
  Keeps-each [] = record { at = λ s h. h }
  Keeps-each (x ∷ xs) = Keeps-bind P (body x) (λ _. each body xs) (kb x) (λ _. Keeps-each xs)

module _ {E S A B : Type 0} (P : S → Type 0) (body : A → Io E S (List B))
    (kb : (a : A) → Keeps P (body a)) where
  pub Keeps-gather : (xs : List A) → Keeps P (gather body xs)
  unfolding gather
  Keeps-gather [] = record { at = λ s h. h }
  Keeps-gather (x ∷ xs) = Keeps-bind P (body x) _ (kb x) (λ first.
      Keeps-bind P (gather body xs) _ (Keeps-gather xs) (λ rest. record { at = λ s h. h }))

module _ {E S A : Type 0} (P : A → S → Type 0) (body : A → Io E S (Unit {0}))
    (keeps : (x y : A) → Keeps (P y) (body x))
    (makes : (x : A) (s : S) → (body x s).0 ≡ ok tt → P x (body x s).1) where
  -- A loop that ended without an error has made `P` for all its elements.
  pub each-All :
      (xs : List A) (s : S) → (each body xs s).0 ≡ ok tt → All (λ x. P x (each body xs s).1) xs
  unfolding each
  each-All [] s h = tt
  each-All (x ∷ xs) s h =
      let (_, first, e) = proceed-ok (λ _. each body xs) (body x s) h in
      subst (λ t. P x t × All (λ z. P z t) xs) (sym (ap (λ p. p.1) e))
        (
          (Keeps-each (P x) body (λ z. keeps z x) xs).at _ (makes x s first),
          each-All xs (body x s).1 (rw e at h),
        )

pub append-eq-nil : {B : Type 0} (xs ys : List B) → xs ++ ys ≡ [] → (xs ≡ []) × (ys ≡ [])
append-eq-nil [] ys h = (refl, h)
append-eq-nil (x ∷ xs) ys h = cc

-- A round that reports nothing, in front of others that report nothing
gather-cons-nil :
    {E S A B : Type 0} (body : A → Io E S (List B)) (x : A) (xs : List A) (s : S)
    → (gather body (x ∷ xs) s).0 ≡ ok []
    → ((body x s).0 ≡ ok [])
      × ((gather body xs (body x s).1).0 ≡ ok [])
      × ((gather body (x ∷ xs) s).1 ≡ (gather body xs (body x s).1).1)
unfolding gather
gather-cons-nil body x xs s h =
    let (first, first_ok, e) = proceed-ok _ (body x s) h in
    let (rest, rest_ok, e') =
      proceed-ok (λ rest. pure (first ++ rest)) (gather body xs (body x s).1) (rw e at h) in
    let (no_first, no_rest) = append-eq-nil first rest (ground (arith, e, e', h)) in
    (cc (first_ok, no_first), cc (rest_ok, no_rest), cc (e, e'))

module _ {E S A B : Type 0} (P : A → S → Type 0) (body : A → Io E S (List B))
    (keeps : (x y : A) → Keeps (P y) (body x))
    (makes : (x : A) (s : S) → (body x s).0 ≡ ok [] → P x (body x s).1) where
  -- A gathering loop that reports nothing has made `P` for all its elements.
  pub gather-All :
      (xs : List A) (s : S) → (gather body xs s).0 ≡ ok [] → All (λ x. P x (gather body xs s).1) xs
  unfolding gather
  gather-All [] s h = tt
  gather-All (x ∷ xs) s h =
      let (first, rest, e) = gather-cons-nil body x xs s h in
      subst (λ t. P x t × All (λ z. P z t) xs) (sym e)
        (
          (Keeps-gather (P x) body (λ z. keeps z x) xs).at _ (makes x s first),
          gather-All xs (body x s).1 rest,
        )

module _ {E S A B : Type 0} (count : S → ℕ) (body : A → Io E S (List B)) (each_counts : ℕ)
    (reports : (x : A) (s : S) → (r : List B) × ((body x s).0 ≡ ok r))
    (counts : (x : A) (s : S) → count (body x s).1 ≡ count s + each_counts) where
  -- A gathering loop whose rounds report and do not fail makes a round for each element.
  pub gather-count :
      (xs : List A) (s : S)
      → (r : List B) × ((gather body xs s).0 ≡ ok r)
        × (count (gather body xs s).1 ≡ count s + each_counts * length xs)
  unfolding gather
  gather-count [] s = ([], refl, omega arith)
  gather-count (x ∷ xs) s =
      let (first, first_ok) = reports x s in
      let (rest, rest_ok, total) = gather-count xs (body x s).1 in
      (
        first ++ rest,
        rw first_ok (rw rest_ok refl),
        rw first_ok (rw rest_ok (omega (arith, total, counts x s))),
      )

module _ {E F G S A B C : Type 0} where
  -- A wrapped chain goes on as its last part, wrapped, does.
  pub proceed-rewrap-proceed :
      (k : B → Io G S C) (f : F → G) (g : A → Io F S B) (h : E → F) (p : Result E A × S)
      → proceed k (rewrap f (proceed g (rewrap h p)))
        ≡ proceed (λ a s. proceed k (rewrap f (g a s))) (rewrap (λ e. f (h e)) p)
  proceed-rewrap-proceed k f g h (ok a, s) = refl
  proceed-rewrap-proceed k f g h (err e, s) = refl

module _ {E S A : Type 0} where
  -- Two calls in a row that succeeded: the second one in the state that the first one left
  pub then-ok :
      (m : Io E S (Unit {0})) (n : Io E S A) (s : S) {a : A}
      → ((m >> n) s).0 ≡ ok a
      → ((m s).0 ≡ ok tt) × ((n (m s).1).0 ≡ ok a) × ((m >> n) s ≡ n (m s).1)
  then-ok m n s h = let (_, first, e) = proceed-ok (λ _. n) (m s) h in (first, rw e at h, e)
