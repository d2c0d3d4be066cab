-- ===== src/Pipeline/Tests.antt =====
-- Runs of the pipeline's transactions, and the theorems at concrete inputs.
use ninai.Base.{
  Bool, List, Option, [], false, insert_by, length, none, ok, order_by, raise, refl, some,
  type_error, ℕ, ◌++◌, ◌>>=◌, ◌∷◌, ◌≡◌,
}
use ninai.Pipeline.{
  DeadLetterTask, PipelineTask, Scope, Store, Text, critique, log_event, max_retries_exceeded,
  pipeline_dequeue, pipeline_enqueue, pipeline_update, save,
}
use ninai.Pipeline.Dequeue.{Dispatched, dequeue_next_by_sla-Dispatched}
use ninai.Pipeline.Invariant.{IsValid}
use ninai.Pipeline.Lifecycle.{empty-IsValid, refusal, requeue_task-raises, run-KeepsValid}
use ninai.Pipeline.Operator.{cancel, cancel_pipeline_task, retry, retry_pipeline_task}
use ninai.Pipeline.Order.{comes_before-is-deadline_first, deadline_first}
use ninai.Pipeline.Quarantine.{add_entry, check_and_quarantine, dead_letter, quarantine_new}
use ninai.Pipeline.Requests.{
  Request, cancelling, dequeue, empty, enqueue, failing, retrying, run, serve,
}
use ninai.Pipeline.Retries.{dead_letter-review_priority}
use ninai.Pipeline.Review.{Keyword, call_enqueue, get_entry, requeue_call, requeue_task}
use ninai.Pipeline.Scheduler.{
  NewTask, comes_before, created, dequeue_next_by_sla, enqueue_pipeline_task, fail, mark_failed,
  start, started,
}

abbrev rights : Option (List Scope)
rights = some (pipeline_enqueue ∷ pipeline_dequeue ∷ pipeline_update ∷ [])

abbrev critique_of : ℕ → ℕ → ℕ → NewTask
critique_of id deadline priority = record {
  id = id;
  organization_id = 1;
  task_type = critique;
  input_session_id = 50;
  target_resource_id = 60;
  sla_deadline = deadline;
  sla_category = none;
  priority = priority;
  estimated_tokens = 0;
  estimated_latency_ms = 0;
}

abbrev nothing_locked : ℕ → Bool
nothing_locked id = false

abbrev error : Text
error = 101 ∷ 114 ∷ 114 ∷ []

abbrev started_requests : List Request
started_requests =
    enqueue (critique_of 1 9000 0) rights 10
    ∷ enqueue (critique_of 2 5000 7) rights 20
    ∷ dequeue nothing_locked 1 rights 30
    ∷ []

-- Three attempts at the task, each failing.
abbrev attempt : List Request
attempt = dequeue nothing_locked 1 rights 40 ∷ failing 900 2 error rights 50 ∷ []

abbrev requests : List Request
requests = started_requests ++ failing 900 2 error rights 35 ∷ attempt ++ attempt

late : PipelineTask
unfolding created fail start
late = fail error 50 (start 40 (record (created (critique_of 2 5000 7) 20) { attempts = 2 }))

entries_after_three : length (run empty requests).dead_letters ≡ 1
unfolding run serve empty enqueue_pipeline_task created log_event dequeue_next_by_sla started start
    order_by insert_by comes_before save mark_failed fail check_and_quarantine quarantine_new
    add_entry
entries_after_three = refl

comes_before-is-deadline_first_example :
    comes_before 6000 (created (critique_of 2 5000 7) 20) (created (critique_of 1 9000 0) 10)
    ≡ deadline_first (created (critique_of 2 5000 7) 20) (created (critique_of 1 9000 0) 10)
comes_before-is-deadline_first_example =
    comes_before-is-deadline_first 6000 (created (critique_of 2 5000 7) 20)
      (created (critique_of 1 9000 0) 10)

dequeue_next_by_sla-Dispatched_example :
    (r : Option PipelineTask × Store) × (dequeue_next_by_sla nothing_locked 1 rights 30
        (run empty started_requests)
      ≡ ok r)
    × Dispatched nothing_locked 1 30 (run empty started_requests) r
dequeue_next_by_sla-Dispatched_example =
    dequeue_next_by_sla-Dispatched nothing_locked 1 30 (run empty started_requests) rights refl

run-KeepsValid_example : IsValid (run empty requests)
run-KeepsValid_example = run-KeepsValid empty requests empty-IsValid

requeue_task-raises_example :
    (requeue_task 3 900 77 none 80 (run empty requests)
      ≡ (get_entry 900 (run empty requests) >>= λ entry. raise (refusal entry)))
    × ((d : DeadLetterTask) (scopes : Option (List Scope)) (taken : List Keyword)
        → call_enqueue 3
            (record (requeue_call d) { keywords = taken })
            scopes
            80
            (run empty requests)
          ≡ raise type_error)
requeue_task-raises_example = requeue_task-raises 3 900 77 none 80 (run empty requests)

-- A task that is cancelled while it waits is failed, has no entry, and may be retried.
cancelled_and_retried :
    (run empty (
      enqueue (critique_of 1 9000 0) rights 10
      ∷ cancelling 1 1 (97 ∷ [])
      ∷ retrying 1 1
      ∷ [])).tasks
    ≡ created (critique_of 1 9000 0) 10 ∷ []
unfolding run serve empty enqueue_pipeline_task created log_event save cancel_pipeline_task cancel
    retry_pipeline_task retry
cancelled_and_retried = refl

dead_letter-review_priority_example :
    (dead_letter 900 late max_retries_exceeded 60).review_priority ≡ 5
unfolding late created fail start
dead_letter-review_priority_example =
    dead_letter-review_priority 900 late max_retries_exceeded 60 refl refl
