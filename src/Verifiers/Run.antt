-- ===== src/Verifiers/Run.antt =====
-- pkg/verifiers/verifier.go: the verifiers run as goroutines, which finish in any order and send their
-- failures on a buffered channel, which nothing receives from before all have finished. `errors.Join` of
-- the failures is kept as their list.
pub mod Outcome
use openshift_online_rosa_e.Base.{
  ℕ, ◌<◌, String, List, [], ◌∷◌, ◌++◌, Option, none, some, Result, report, put, length,
}
use openshift_online_rosa_e.Verifiers.Conditions.{ApiError}

-- A goroutine: the name of its verifier, and the error that its `Verify` returns in this run
pub record Verifier : Type 0 where
  pub name : String
  pub failure : Option ApiError

-- The goroutines that have not finished, and `errCh`: its capacity and its buffer
pub record Run : Type 0 where
  pub capacity : ℕ
  pub running : List Verifier
  pub sent : List (String × ApiError)

abbrev pub named : String → Option ApiError → Option (String × ApiError)
named name none = none
named name (some e) = some (name, e)

-- `fmt.Errorf("%s failed: %w", verifier.Name(), err)`, when there is an error
abbrev pub failure_of : Verifier → Option (String × ApiError)
failure_of v = named v.name v.failure

-- The body of a goroutine: what it sends stands behind what others have sent.
abbrev pub finish : Verifier → List (String × ApiError) → List (String × ApiError)
finish v sent = sent ++ put (failure_of v) []

-- A send on a full buffer blocks: what is sent needs room, and nothing sent needs none.
abbrev pub HasRoom : ℕ → List (String × ApiError) → Option (String × ApiError) → Type 0
HasRoom capacity sent none = Unit
HasRoom capacity sent (some failure) = length sent < capacity

-- One goroutine, any of those that run and do not block, finishes.
pub data Step : Run → Run → Type 0 where
  done :
      (capacity : ℕ) (before : List Verifier) (v : Verifier) (after : List Verifier)
      (sent : List (String × ApiError))
      → HasRoom capacity sent (failure_of v)
      → Step
          (record { capacity = capacity; running = before ++ (v ∷ after); sent = sent })
          (record { capacity = capacity; running = before ++ after; sent = finish v sent })

pub data Steps : Run → Run → Type 0 where
  stop : (r : Run) → Steps r r
  step : {r s t : Run} → Step r s → Steps s t → Steps r t

-- Behind the loop that starts the goroutines: `errCh := make(chan error, len(verifiers))`
abbrev pub start : List Verifier → Run
start verifiers = record { capacity = length verifiers; running = verifiers; sent = [] }

-- Behind `wg.Wait()`: the failures that the channel holds, joined
abbrev pub join_errors : List (String × ApiError) → Result (List (String × ApiError)) (Unit {0})
join_errors sent = report (λ errs. errs) sent
