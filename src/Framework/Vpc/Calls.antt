-- ===== src/Framework/Vpc/Calls.antt =====
-- The calls of the client, the log and the waits of pkg/framework/vpc_cleanup.go.
use openshift_online_rosa_e.Base.{ℕ, none, some, List, [], ◌∷◌, ◌++◌, Result, ok}
use openshift_online_rosa_e.Base.Io.{Io, pure, raise, modify, ◌>>=◌, within}
use openshift_online_rosa_e.Framework.Vpc.Types.{
  AwsError, Ec2Client, CleanupError, Session, LogLine, collect_pages, context_done,
}

abbrev pub Cleanup : Type 0 → Type 0 → Type 0
Cleanup World A = Io CleanupError (Session World) A

module _ {World : Type 0} where
  -- A call of the client: its answer is a value, which the caller tests.
  abbrev pub call : {A : Type 0} → (World → A × World) → Cleanup World A
  call f s = let (answer, w) = f s.world in (ok answer, record s { world = w })

  abbrev pub logf : LogLine → Cleanup World (Unit {0})
  logf line = modify (λ s. record s { log = s.log ++ (line ∷ []) })

  -- The pages that a paginator yields, put together.
  abbrev pub paginate :
      {A : Type 0}
      → (World → List (Result AwsError (List A)))
      → (AwsError → CleanupError)
      → Cleanup World (List A)
  paginate pages failure s = within failure (λ s. (collect_pages (pages s.world), s)) s

module _ {World Permission : Type 0} (client : Ec2Client World Permission) where
  -- `select` on the context and on a timer
  abbrev pub pause : ℕ → Cleanup World (Unit {0})
  pause duration = do
    done ← call (client.sleep duration)
    elim done [ none ↦ pure tt | some e ↦ raise (context_done e) ]
