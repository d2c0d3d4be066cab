-- ===== src/Pipeline/Scheduler.antt =====
-- The operations of backend/app/services/sla_scheduler_service.py. Each runs in one transaction
-- over the store; `now` is the clock that it reads, `scopes` the caller's capability scopes.
use ninai.Base.{
  Bool, List, Option, Outcome, String, [], false, first, if◌then◌else◌, leb, ltb, none, not, ok,
  order_by, permission_error, raise, raise_if, select, some, true, value_error, ℕ, ◌&&◌, ◌++◌, ◌+◌,
  ◌-◌, ◌/◌, ◌==◌, ◌>>=◌, ◌>>◌, ◌||◌, ◌∷◌,
}
use ninai.Pipeline.{
  PipelineTask, Scope, Store, TaskType, Text, blocked, failed, get_task, lacks, log_event,
  max_retries_exceeded, pipeline_dequeue, pipeline_enqueue, pipeline_update, queued, running,
  same_status, save, succeeded, task_blocked, task_enqueued, task_failed, task_started,
  task_succeeded,
}
use ninai.Pipeline.Quarantine.{check_and_quarantine}

-- The keyword arguments of enqueue_pipeline_task; `id` is the uuid4 it draws.
pub record NewTask : Type 0 where
  pub id : ℕ
  pub organization_id : ℕ
  pub task_type : TaskType
  pub input_session_id : ℕ
  pub target_resource_id : ℕ
  pub sla_deadline : ℕ
  pub sla_category : Option String
  pub priority : ℕ
  pub estimated_tokens : ℕ
  pub estimated_latency_ms : ℕ

unfoldable pub created : NewTask → ℕ → PipelineTask
created n now = record {
  id = n.id;
  organization_id = n.organization_id;
  task_type = n.task_type;
  status = queued;
  priority = n.priority;
  sla_deadline = n.sla_deadline;
  sla_category = n.sla_category;
  attempts = 0;
  max_attempts = 3;
  started_at = none;
  finished_at = none;
  duration_ms = none;
  estimated_tokens = n.estimated_tokens;
  estimated_latency_ms = n.estimated_latency_ms;
  actual_tokens = none;
  actual_latency_ms = none;
  input_session_id = n.input_session_id;
  target_resource_id = n.target_resource_id;
  blocks_on_task_id = none;
  blocked_by_quota = false;
  last_error = none;
  created_at = now;
}

unfoldable pub enqueue_pipeline_task :
    NewTask → Option (List Scope) → ℕ → Store → Outcome (PipelineTask × Store)
unfolding created log_event
enqueue_pipeline_task n scopes now db = do
  raise_if (lacks scopes pipeline_enqueue) permission_error
  let task = created n now
  ok (task, log_event (task_enqueued task.id) (record db { tasks = db.tasks ++ task ∷ [] }))

-- The WHERE clause of the dequeue.
abbrev pub is_runnable : ℕ → PipelineTask → Bool
is_runnable org_id t =
    t.organization_id == org_id
    && same_status t.status queued
    && ltb t.attempts t.max_attempts
    && not t.blocked_by_quota

-- Its ORDER BY: breached first, then the deadline, then the higher priority, then the creation.
unfoldable pub comes_before : ℕ → PipelineTask → PipelineTask → Bool
comes_before now a b =
    let late_a = ltb a.sla_deadline now in
    let late_b = ltb b.sla_deadline now in
    (late_a && not late_b)
    || (not (late_b && not late_a)
        && (ltb a.sla_deadline b.sla_deadline
            || (a.sla_deadline == b.sla_deadline
                && (ltb b.priority a.priority
                    || (b.priority == a.priority && ltb a.created_at b.created_at)))))

unfoldable pub start : ℕ → PipelineTask → PipelineTask
start now t = record t { status = running; started_at = some now; attempts = t.attempts + 1 }

-- The rows that the query can return: those that no other transaction has locked.
abbrev pub candidates : (ℕ → Bool) → ℕ → Store → List PipelineTask
candidates locked org_id db = select (λ t. is_runnable org_id t && not (locked t.id)) db.tasks

unfoldable pub started : ℕ → Option PipelineTask → Store → Option PipelineTask × Store
unfolding start save log_event
started now none db = (none, db)
started now (some t) db =
    (some (start now t), log_event (task_started t.id) (save (start now t) db))

unfoldable pub dequeue_next_by_sla :
    (ℕ → Bool) → ℕ → Option (List Scope) → ℕ → Store → Outcome (Option PipelineTask × Store)
unfolding started
dequeue_next_by_sla locked org_id scopes now db = do
  raise_if (lacks scopes pipeline_dequeue) permission_error
  ok (started now (first (order_by (comes_before now) (candidates locked org_id db))) db)

-- `if not task: raise ValueError`
abbrev pub found {ℓ} : {A : Type ℓ} → Option A → Outcome A
found none = raise value_error
found (some a) = ok a

-- `int((finished_at - started_at).total_seconds() * 1000)`, for a clock that does not run back
abbrev pub elapsed_ms : ℕ → ℕ → ℕ
elapsed_ms start finish = (finish - start) / 1000

unfoldable pub succeed : Option ℕ → Option ℕ → ℕ → PipelineTask → PipelineTask
succeed tokens latency now t = record t {
  status = succeeded;
  finished_at = some now;
  actual_tokens = tokens;
  actual_latency_ms = latency;
  duration_ms = elim t.started_at [ none ↦ t.duration_ms | some s ↦ some (elapsed_ms s now) ];
}

unfoldable pub mark_succeeded :
    ℕ → Option ℕ → Option ℕ → Option (List Scope) → ℕ → Store → Outcome (PipelineTask × Store)
unfolding succeed save log_event
mark_succeeded id tokens latency scopes now db = do
  raise_if (lacks scopes pipeline_update) permission_error
  t ← found (get_task id db)
  let t' = succeed tokens latency now t
  ok (t', log_event (task_succeeded t'.id) (save t' db))

abbrev pub is_exhausted : PipelineTask → Bool
is_exhausted t = leb t.max_attempts t.attempts

unfoldable pub fail : Text → ℕ → PipelineTask → PipelineTask
fail error now t = record t {
  status = if is_exhausted t then failed else queued;
  last_error = some error;
  finished_at = elim t.started_at [
    | none ↦ if is_exhausted t then some now else t.finished_at
    | some s ↦ some now
  ];
  duration_ms = elim t.started_at [ none ↦ t.duration_ms | some s ↦ some (elapsed_ms s now) ];
}

-- `dlq_id` is the id of the dead-letter entry, should there be one.
unfoldable pub mark_failed :
    ℕ → ℕ → Text → Option (List Scope) → ℕ → Store → Outcome (PipelineTask × Store)
unfolding fail save log_event
mark_failed dlq_id id error scopes now db = do
  raise_if (lacks scopes pipeline_update) permission_error
  t ← found (get_task id db)
  let t' = fail error now t
  let db' = log_event (task_failed t'.id) (save t' db)
  if is_exhausted t
      then (check_and_quarantine dlq_id t' max_retries_exceeded now db' >>= λ r. ok (t', r.1))
      else ok (t', db')

-- The reasons that the code tells apart.
pub data BlockReason : Type 0 where
  quota : BlockReason
  other_reason : String → BlockReason

abbrev pub is_quota : BlockReason → Bool
is_quota quota = true
is_quota (other_reason s) = false

unfoldable pub block : BlockReason → Option ℕ → PipelineTask → PipelineTask
block reason on t = record t {
  status = blocked;
  blocks_on_task_id = on;
  blocked_by_quota = is_quota reason;
}

unfoldable pub mark_blocked :
    ℕ → BlockReason → Option ℕ → Option (List Scope) → Store → Outcome (PipelineTask × Store)
unfolding block save log_event
mark_blocked id reason on scopes db = do
  raise_if (lacks scopes pipeline_update) permission_error
  t ← found (get_task id db)
  let t' = block reason on t
  ok (t', log_event (task_blocked t'.id) (save t' db))
