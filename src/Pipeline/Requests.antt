-- ===== src/Pipeline/Requests.antt =====
-- The transactions on the store as one step each. A call that raises leaves the store as it was:
-- the session is rolled back.
use ninai.Base.{Bool, List, Option, Outcome, [], ok, raise, ℕ, ◌∷◌}
use ninai.Pipeline.{Scope, Store, Text}
use ninai.Pipeline.Operator.{cancel_pipeline_task, retry_pipeline_task}
use ninai.Pipeline.Review.{detect_poison_messages, discard_task, requeue_task}
use ninai.Pipeline.Scheduler.{
  BlockReason, NewTask, dequeue_next_by_sla, enqueue_pipeline_task, mark_blocked, mark_failed,
  mark_succeeded,
}

pub data Request : Type 0 where
  enqueue : NewTask → Option (List Scope) → ℕ → Request
  dequeue : (ℕ → Bool) → ℕ → Option (List Scope) → ℕ → Request
  succeeding : ℕ → Option ℕ → Option ℕ → Option (List Scope) → ℕ → Request
  failing : ℕ → ℕ → Text → Option (List Scope) → ℕ → Request
  blocking : ℕ → BlockReason → Option ℕ → Option (List Scope) → Request
  poison_search : ℕ → ℕ → ℕ → Request
  requeueing : ℕ → ℕ → ℕ → Option Text → ℕ → Request
  discarding : ℕ → ℕ → Option Text → ℕ → Request
  cancelling : ℕ → ℕ → Text → Request
  retrying : ℕ → ℕ → Request

abbrev pub committed {ℓ} : {A : Type ℓ} → Store → Outcome (A × Store) → Store
committed db (ok r) = r.1
committed db (raise e) = db

unfoldable pub serve : Store → Request → Store
serve db (enqueue n scopes now) = committed db (enqueue_pipeline_task n scopes now db)
serve db (dequeue locked org_id scopes now) =
    committed db (dequeue_next_by_sla locked org_id scopes now db)
serve db (succeeding id tokens latency scopes now) =
    committed db (mark_succeeded id tokens latency scopes now db)
serve db (failing dlq_id id error scopes now) =
    committed db (mark_failed dlq_id id error scopes now db)
serve db (blocking id reason on scopes) = committed db (mark_blocked id reason on scopes db)
serve db (poison_search next_id org_id now) =
    committed db (detect_poison_messages next_id org_id now db)
serve db (requeueing new_id dlq_id user_id notes now) =
    committed db (requeue_task new_id dlq_id user_id notes now db)
serve db (discarding dlq_id user_id notes now) =
    committed db (discard_task dlq_id user_id notes now db)
serve db (cancelling id org_id email) = committed db (cancel_pipeline_task id org_id email db)
serve db (retrying id org_id) = committed db (retry_pipeline_task id org_id db)

unfoldable pub run : Store → List Request → Store
run db [] = db
run db (r ∷ rs) = run (serve db r) rs

unfoldable pub empty : Store
empty = record { tasks = []; dead_letters = []; audit = [] }
