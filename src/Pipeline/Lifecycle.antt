-- ===== src/Pipeline/Lifecycle.antt =====
-- The invariant over every sequence of transactions, from the empty store.
use ninai.Base.{
  All-map, Bool, Exception, List, Option, Outcome, [], any, any-update, arith, count-update, false,
  if◌then◌else◌, none, not, ok, raise, raise_if, refl, some, true, type_error, update, value_error,
  ℕ, ◌==◌, ◌>>=◌, ◌>>◌, ◌∙◌, ◌∷◌, ◌≡◌,
}
use ninai.Pipeline.{DeadLetterTask, PipelineTask, Scope, Store, Text, discarded, task_discarded}
use ninai.Pipeline.Cancellation.{cancel_pipeline_task-Keeps, retry_pipeline_task-Keeps}
use ninai.Pipeline.Invariant.{IsValid, Keeps, TaskIsValid-mono, log_event-IsValid}
use ninai.Pipeline.Operator.{cancel_pipeline_task, retry_pipeline_task}
use ninai.Pipeline.Poison.{detect_poison_messages-Keeps}
use ninai.Pipeline.Requests.{
  Request, blocking, cancelling, committed, dequeue, discarding, empty, enqueue, failing,
  poison_search, requeueing, retrying, run, serve, succeeding,
}
use ninai.Pipeline.Review.{
  Keyword, call_enqueue, detect_poison_messages, discard_task, get_entry, is_parameter,
  requeue_call, requeue_task, resolve, resolve_entry,
}
use ninai.Pipeline.Scheduler.{
  dequeue_next_by_sla, enqueue_pipeline_task, found, mark_blocked, mark_failed, mark_succeeded,
}
use ninai.Pipeline.Steps.{
  chain-Keeps, dequeue_next_by_sla-Keeps, enqueue_pipeline_task-Keeps, found-Keeps,
  mark_blocked-Keeps, mark_failed-Keeps, mark_succeeded-Keeps,
}

committed-IsValid :
    {A : Type 0} (db : Store) (o : Outcome (A × Store))
    → IsValid db
    → Keeps o
    → IsValid (committed db o)
committed-IsValid db (ok r) h k = k
committed-IsValid db (raise e) h k = h

-- The exception with which requeuing an entry ends.
abbrev pub refusal : Option DeadLetterTask → Exception
refusal none = value_error
refusal (some d) = if d.is_resolved then value_error else type_error

either_exception :
    {A : Type 0} (b : Bool) (o : Outcome A)
    → o ≡ raise type_error
    → (raise_if b value_error >> o) ≡ raise (if b then value_error else type_error)
either_exception true o h = refl
either_exception false o h = h

refused_entry :
    (entry : Option DeadLetterTask) (k : DeadLetterTask → Outcome (PipelineTask × Store))
    → ((d : DeadLetterTask) → k d ≡ raise type_error)
    → (found entry >>= λ d. (raise_if d.is_resolved value_error >> k d)) ≡ raise (refusal entry)
refused_entry none k h = refl
refused_entry (some d) k h = either_exception d.is_resolved (k d) (h d)

after_entry :
    {A : Type 0} (o : Outcome (Option DeadLetterTask)) (k : Option DeadLetterTask → Outcome A)
    → ((entry : Option DeadLetterTask) → k entry ≡ raise (refusal entry))
    → (o >>= k) ≡ (o >>= λ entry. raise (refusal entry))
after_entry (ok entry) k h = h entry
after_entry (raise e) k h = refl

either_way :
    {A : Type 0} (b : Bool) (o : Outcome A)
    → o ≡ raise type_error
    → (raise_if b type_error >> o) ≡ raise type_error
either_way true o h = refl
either_way false o h = h

-- Requeuing never succeeds. An entry that is not there or is resolved already is refused with
-- ValueError; for every other entry the call of enqueue_pipeline_task raises TypeError, and it
-- would also do so without the argument that the function does not take, since it leaves out
-- others that the function needs.
pub requeue_task-raises :
    (new_id dlq_id user_id : ℕ) (notes : Option Text) (now : ℕ) (db : Store)
    → (requeue_task new_id dlq_id user_id notes now db
        ≡ (get_entry dlq_id db >>= λ entry. raise (refusal entry)))
      × ((d : DeadLetterTask) (scopes : Option (List Scope)) (taken : List Keyword)
          → call_enqueue new_id (record (requeue_call d) { keywords = taken }) scopes now db
            ≡ raise type_error)
unfolding requeue_task call_enqueue requeue_call
requeue_task-raises new_id dlq_id user_id notes now db = (
  after_entry (get_entry dlq_id db) _ (λ entry. refused_entry entry _ (λ d. refl)),
  (λ d scopes taken. either_way (any (λ k. not (is_parameter k)) taken) _ refl),
)

discard_task-Keeps :
    (dlq_id user_id : ℕ) (notes : Option Text) (now : ℕ) (db : Store)
    → IsValid db
    → IsValid (resolve_entry discarded dlq_id user_id notes now db)
unfolding resolve_entry resolve
discard_task-Keeps dlq_id user_id notes now db h =
    let change = resolve discarded user_id notes now in
    record {
      tasks_valid =
          All-map
            (λ t v.
              TaskIsValid-mono db.dead_letters (update (λ d. d.id == dlq_id) change db.dead_letters)
                t
                (λ e.
                  any-update (λ d. d.original_task_id == t.id) (λ d. d.id == dlq_id) change
                    (λ d. refl) db.dead_letters
                  ∙ e)
                v)
            db.tasks h.tasks_valid;
      entry_once = λ id.
          rw
            (count-update (λ d. d.original_task_id == id) (λ d. d.id == dlq_id) change (λ d. refl)
              db.dead_letters)
            (h.entry_once id);
    }

discarded-IsValid :
    (dlq_id user_id : ℕ) (notes : Option Text) (now : ℕ) (db : Store)
    → IsValid db
    → Keeps (discard_task dlq_id user_id notes now db)
unfolding discard_task
discarded-IsValid dlq_id user_id notes now db h = chain-Keeps (get_entry dlq_id db) _ (λ entry.
    found-Keeps entry _ (λ d e.
      log_event-IsValid (task_discarded dlq_id)
        (resolve_entry discarded dlq_id user_id notes now db)
        (discard_task-Keeps dlq_id user_id notes now db h)))

serve-IsValid : (db : Store) (r : Request) → IsValid db → IsValid (serve db r)
unfolding serve
serve-IsValid db (enqueue n scopes now) h =
    committed-IsValid db (enqueue_pipeline_task n scopes now db) h
      (enqueue_pipeline_task-Keeps n scopes now db h)
serve-IsValid db (dequeue locked org_id scopes now) h =
    committed-IsValid db (dequeue_next_by_sla locked org_id scopes now db) h
      (dequeue_next_by_sla-Keeps locked org_id scopes now db h)
serve-IsValid db (succeeding id tokens latency scopes now) h =
    committed-IsValid db (mark_succeeded id tokens latency scopes now db) h
      (mark_succeeded-Keeps id tokens latency scopes now db h)
serve-IsValid db (failing dlq_id id error scopes now) h =
    committed-IsValid db (mark_failed dlq_id id error scopes now db) h
      (mark_failed-Keeps dlq_id id error scopes now db h)
serve-IsValid db (blocking id reason on scopes) h =
    committed-IsValid db (mark_blocked id reason on scopes db) h
      (mark_blocked-Keeps id reason on scopes db h)
serve-IsValid db (poison_search next_id org_id now) h =
    committed-IsValid db (detect_poison_messages next_id org_id now db) h
      (detect_poison_messages-Keeps next_id org_id now db h)
serve-IsValid db (requeueing new_id dlq_id user_id notes now) h =
    committed-IsValid db (requeue_task new_id dlq_id user_id notes now db) h (
      rw ((requeue_task-raises new_id dlq_id user_id notes now db).0)
        (chain-Keeps (get_entry dlq_id db) _ (λ entry. tt)))
serve-IsValid db (discarding dlq_id user_id notes now) h =
    committed-IsValid db (discard_task dlq_id user_id notes now db) h
      (discarded-IsValid dlq_id user_id notes now db h)
serve-IsValid db (cancelling id org_id email) h =
    committed-IsValid db (cancel_pipeline_task id org_id email db) h
      (cancel_pipeline_task-Keeps id org_id email db h)
serve-IsValid db (retrying id org_id) h =
    committed-IsValid db (retry_pipeline_task id org_id db) h
      (retry_pipeline_task-Keeps id org_id db h)

-- After any sequence of transactions on a valid store, those of the scheduler, of the dead-letter
-- queue and of an operator who cancels and retries: no task has more attempts than it may, every
-- failed task has an error that begins as the one of a cancellation does, or has used its attempts
-- up and has an entry in the dead-letter queue, and no task has two entries.
pub run-KeepsValid : (db : Store) (rs : List Request) → IsValid db → IsValid (run db rs)
unfolding run
run-KeepsValid db [] h = h
run-KeepsValid db (r ∷ rs) h = run-KeepsValid (serve db r) rs (serve-IsValid db r h)

pub empty-IsValid : IsValid empty
unfolding empty
empty-IsValid = record { tasks_valid = tt; entry_once = λ id. omega arith }
