-- ===== src/Verifiers/Run/Outcome.antt =====
-- pkg/verifiers/verifier.go: whatever the order, the same failures come back.
use mathlib.Core.List.{Perm, perm_middle}
use mathlib.Core.List.Perm
use openshift_online_rosa_e.Base.{
  ℕ, ◌≤◌, ◌+◌, String, ◌≡◌, refl, sym, ap, subst, ◌∙◌, ◌↔◌, List, [], ◌∷◌, ◌++◌, Option, none, some,
  ok, collect, put, report_iff, collect-eq-nil, All, length, length-append, arith,
}
use openshift_online_rosa_e.Verifiers.Conditions.{ApiError}
use openshift_online_rosa_e.Verifiers.Run.{
  Verifier, Run, named, failure_of, finish, HasRoom, Step, done, Steps, stop, step, start,
  join_errors,
}

failed_iff : (v : Verifier) → (failure_of v ≡ none) ↔ (v.failure ≡ none)
failed_iff v = by_name v.failure
  where
    by_name : (failure : Option ApiError) → (named v.name failure ≡ none) ↔ (failure ≡ none)
    by_name none = (λ _. refl, λ _. refl)
    by_name (some e) = (λ h. cc, λ h. cc)

-- What a run may still report: what was sent, and the failures to come.
abbrev outcome : Run → List (String × ApiError)
outcome r = r.sent ++ collect failure_of r.running

snoc_append : {B : Type 0} (o : Option B) (xs ys : List B) → (xs ++ put o []) ++ ys ≡ xs ++ put o ys
snoc_append none [] ys = refl
snoc_append (some b) [] ys = refl
snoc_append o (x ∷ xs) ys = ap (λ l. x ∷ l) (snoc_append o xs ys)

append_nil : {B : Type 0} (xs : List B) → xs ++ [] ≡ xs
append_nil [] = refl
append_nil (x ∷ xs) = ap (λ l. x ∷ l) (append_nil xs)

put-append : {B : Type 0} (o : Option B) (xs ys : List B) → put o (xs ++ ys) ≡ put o xs ++ ys
put-append none xs ys = refl
put-append (some b) xs ys = refl

collect-append :
    (xs ys : List Verifier)
    → collect failure_of (xs ++ ys) ≡ collect failure_of xs ++ collect failure_of ys
unfolding collect
collect-append [] ys = refl
collect-append (x ∷ xs) ys =
    ap (put (failure_of x)) (collect-append xs ys)
    ∙ put-append (failure_of x) (collect failure_of xs) _

-- What is put behind the first list may be put between the two others.
moved : {B : Type 0} (o : Option B) (xs ys : List B) → Perm (put o (xs ++ ys)) (xs ++ put o ys)
moved none xs ys = Perm.refl _
moved (some b) xs ys = Perm.symm (perm_middle xs ys)

-- A goroutine that finishes leaves the outcome the same, up to the order.
Step-Perm : {r s : Run} → Step r s → Perm (outcome s) (outcome r)
unfolding collect
Step-Perm (done capacity before v after sent room) =
    let f = collect failure_of in
    let now =
      snoc_append (failure_of v) sent (f (before ++ after))
      ∙ ap (λ l. sent ++ put (failure_of v) l) (collect-append before after) in
    let then = ap (λ l. sent ++ l) (collect-append before (v ∷ after)) in
    subst (λ l. Perm l (sent ++ f (before ++ (v ∷ after)))) (sym now)
      (subst (λ l. Perm (sent ++ put (failure_of v) (f before ++ f after)) l) (sym then)
        (Perm.append_left sent (moved (failure_of v) (f before) (f after))))

Steps-Perm : {r s : Run} → Steps r s → Perm (outcome s) (outcome r)
Steps-Perm (stop r) = Perm.refl _
Steps-Perm (step first rest) = Perm.trans (Steps-Perm rest) (Step-Perm first)

nil_iff : {xs ys : List (String × ApiError)} → Perm xs ys → (xs ≡ []) ↔ (ys ≡ [])
nil_iff {xs} {ys} p = (
  λ h. Perm.eq-nil (Perm.symm (subst (λ l. Perm l ys) h p)),
  λ h. Perm.eq-nil (subst (λ l. Perm xs l) h p),
)

-- In whatever order the goroutines of RunVerifiers finish, what the channel holds behind the wait is,
-- up to the order, the failures of all verifiers that failed, each named, and the joined error is nil
-- exactly when every verifier returned nil.
pub Steps-join_errors :
    (verifiers : List Verifier) (capacity : ℕ) (sent : List (String × ApiError))
    → Steps (start verifiers) (record { capacity = capacity; running = []; sent = sent })
    → Perm sent (collect failure_of verifiers)
      × ((join_errors sent ≡ ok tt) ↔ All (λ v. v.failure ≡ none) verifiers)
unfolding collect
Steps-join_errors verifiers capacity sent steps =
    let same =
      subst (λ l. Perm l (collect failure_of verifiers)) (append_nil sent) (Steps-Perm steps) in
    let none_sent = report_iff (λ errs. errs) sent in
    let all_passed = collect-eq-nil failed_iff verifiers in
    (
      same,
      (
        λ h. all_passed.0 ((nil_iff same).0 (none_sent.0 h)),
        λ h. none_sent.1 ((nil_iff same).1 (all_passed.1 h)),
      ),
    )

put_bound : {B : Type 0} (o : Option B) → length (put o []) ≤ 1
put_bound none = omega arith
put_bound (some b) = omega arith

-- The buffer has room for a failure of each goroutine that runs.
abbrev HasRoomForAll : Run → Type 0
HasRoomForAll r = length r.sent + length r.running ≤ r.capacity

Step-HasRoomForAll : {r s : Run} → Step r s → HasRoomForAll r → HasRoomForAll s
Step-HasRoomForAll (done capacity before v after sent room) h = omega (
  arith,
  length-append before (v ∷ after),
  length-append before after,
  length-append sent (put (failure_of v) []),
  put_bound (failure_of v),
)

Steps-HasRoomForAll : {r s : Run} → Steps r s → HasRoomForAll r → HasRoomForAll s
Steps-HasRoomForAll (stop r) h = h
Steps-HasRoomForAll (step first rest) h = Steps-HasRoomForAll rest (Step-HasRoomForAll first h)

-- Room for all is room for each.
HasRoomForAll-HasRoom :
    (capacity : ℕ) (before : List Verifier) (v : Verifier) (after : List Verifier)
    (sent : List (String × ApiError)) (failure : Option (String × ApiError))
    → length sent + length (before ++ (v ∷ after)) ≤ capacity
    → HasRoom capacity sent failure
HasRoomForAll-HasRoom capacity before v after sent none h = tt
HasRoomForAll-HasRoom capacity before v after sent (some failure) h =
    omega (arith, length-append before (v ∷ after))

-- With room for all, those that run finish one after the other.
finishing :
    (capacity : ℕ) (running : List Verifier) (sent : List (String × ApiError))
    → length sent + length running ≤ capacity
    → (end : List (String × ApiError)) × Steps
        (record { capacity = capacity; running = running; sent = sent })
        (record { capacity = capacity; running = []; sent = end })
finishing capacity [] sent h = (sent, stop _)
finishing capacity (v ∷ running) sent h =
    let room = HasRoomForAll-HasRoom capacity [] v running sent (failure_of v) h in
    let first = done capacity [] v running sent room in
    let (end, rest) = finishing capacity running (finish v sent) (Step-HasRoomForAll first h) in
    (end, step first rest)

-- At every moment of a run of RunVerifiers, each goroutine that still runs can finish, whichever it is:
-- the channel, with a buffer for as many errors as there are verifiers, has room for what it sends, so
-- that none blocks, and all that run can be brought to their end.
pub Steps-room_and_end :
    (verifiers : List Verifier) (capacity : ℕ) (before : List Verifier) (v : Verifier)
    (after : List Verifier) (sent : List (String × ApiError))
    → Steps
        (start verifiers)
        (record { capacity = capacity; running = before ++ (v ∷ after); sent = sent })
    → Step
        (record { capacity = capacity; running = before ++ (v ∷ after); sent = sent })
        (record { capacity = capacity; running = before ++ after; sent = finish v sent })
      × ((end : List (String × ApiError)) × Steps
            (record { capacity = capacity; running = before ++ (v ∷ after); sent = sent })
            (record { capacity = capacity; running = []; sent = end }))
Steps-room_and_end verifiers capacity before v after sent steps =
    let room = Steps-HasRoomForAll steps (omega arith) in
    (
      done capacity before v after sent
          (HasRoomForAll-HasRoom capacity before v after sent (failure_of v) room),
      finishing capacity (before ++ (v ∷ after)) sent room,
    )
