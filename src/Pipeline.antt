-- ===== src/Pipeline.antt =====
-- backend/app/models/pipeline_task.py and models/dead_letter_queue.py: the rows of the pipeline's
-- two tables, and the state that services/sla_scheduler_service.py and
-- services/dead_letter_queue_service.py share. Ids are numbers; times are in microseconds.
pub mod Quarantine
pub mod Scheduler
pub mod Review
pub mod Stats
pub mod Order
pub mod Dequeue
pub mod Operator
pub mod Requests
pub mod Invariant
pub mod Steps
pub mod Poison
pub mod Cancellation
pub mod Lifecycle
pub mod Retries
mod Tests
use ninai.Base.{
  Bool, List, Option, String, Text, [], any, false, find?, ltb, none, not, some, true, update, ℕ,
  ◌&&◌, ◌++◌, ◌-◌, ◌/◌, ◌==◌, ◌||◌, ◌∷◌,
}

-- PipelineTaskStatus
pub data PipelineTaskStatus : Type 0 where
  queued running blocked succeeded failed : PipelineTaskStatus

-- The values of PipelineTaskType, the two upper-case words that the dead-letter queue compares a
-- type with, and any other string of the column.
pub data TaskType : Type 0 where
  consolidation critique evaluation feedback_loop embedding_refresh : TaskType
  consolidation_upper critique_upper : TaskType
  other_type : String → TaskType

-- The capability scopes, which the code compares as strings.
pub data Scope : Type 0 where
  pipeline_enqueue pipeline_dequeue pipeline_update : Scope
  other_scope : String → Scope

abbrev pub same_scope : Scope → Scope → Bool
same_scope pipeline_enqueue pipeline_enqueue = true
same_scope pipeline_dequeue pipeline_dequeue = true
same_scope pipeline_update pipeline_update = true
same_scope _ _ = false

-- `scopes and "..." not in scopes`: neither an absent nor an empty set is refused.
abbrev pub lacks : Option (List Scope) → Scope → Bool
lacks none s = false
lacks (some []) s = false
lacks (some (x ∷ xs)) s = not (any (same_scope s) (x ∷ xs))

-- PipelineTask, with an error message as code points. `task_metadata`, JSON that the code only stores, is left out. `priority`, a signed
-- 32-bit column that is only compared, is held with 2 ^ 31 added.
pub record PipelineTask : Type 0 where
  pub id : ℕ
  pub organization_id : ℕ
  pub task_type : TaskType
  pub status : PipelineTaskStatus
  pub priority : ℕ
  pub sla_deadline : ℕ
  pub sla_category : Option String
  pub attempts : ℕ
  pub max_attempts : ℕ
  pub started_at : Option ℕ
  pub finished_at : Option ℕ
  pub duration_ms : Option ℕ
  pub estimated_tokens : ℕ
  pub estimated_latency_ms : ℕ
  pub actual_tokens : Option ℕ
  pub actual_latency_ms : Option ℕ
  pub input_session_id : ℕ
  pub target_resource_id : ℕ
  pub blocks_on_task_id : Option ℕ
  pub blocked_by_quota : Bool
  pub last_error : Option Text
  pub created_at : ℕ

pub data FailureReason : Type 0 where
  max_retries_exceeded poison_message : FailureReason

pub data Resolution : Type 0 where
  requeued discarded : Resolution

-- DeadLetterTask. Of `task_payload` the type, the priority and the category are kept.
pub record DeadLetterTask : Type 0 where
  pub id : ℕ
  pub organization_id : ℕ
  pub original_task_id : ℕ
  pub task_type : TaskType
  pub failure_reason : FailureReason
  pub total_attempts : ℕ
  pub last_error : Option Text
  pub error_pattern : Option Text
  pub payload_type : TaskType
  pub payload_priority : ℕ
  pub payload_category : Option String
  pub quarantined_at : ℕ
  pub reviewed_at : Option ℕ
  pub reviewed_by : Option ℕ
  pub resolution : Option Resolution
  pub resolution_notes : Option Text
  pub is_resolved : Bool
  pub review_priority : ℕ

-- The events that the services and the endpoints write, with the id of the resource.
pub data AuditEvent : Type 0 where
  task_enqueued task_started task_succeeded task_failed task_blocked : ℕ → AuditEvent
  task_quarantined task_requeued task_discarded : ℕ → AuditEvent
  task_cancelled task_retried : ℕ → AuditEvent

pub record Store : Type 0 where
  pub tasks : List PipelineTask
  pub dead_letters : List DeadLetterTask
  pub audit : List AuditEvent

abbrev pub same_status : PipelineTaskStatus → PipelineTaskStatus → Bool
same_status queued queued = true
same_status running running = true
same_status blocked blocked = true
same_status succeeded succeeded = true
same_status failed failed = true
same_status _ _ = false

-- A changed object is written back to the row of its primary key.
unfoldable pub save : PipelineTask → Store → Store
save task db = record db { tasks = update (λ t. t.id == task.id) (λ t. task) db.tasks }

unfoldable pub log_event : AuditEvent → Store → Store
log_event e db = record db { audit = db.audit ++ e ∷ [] }

-- `self.db.get(PipelineTask, task_id)`, with the ValueError of the callers.
abbrev pub get_task : ℕ → Store → Option PipelineTask
get_task id db = find? (λ t. t.id == id) db.tasks

unfoldable pub sla_breached : PipelineTask → ℕ → Bool
sla_breached task now =
    not (same_status task.status succeeded || same_status task.status failed)
    && ltb task.sla_deadline now

-- `max(0, int(remaining.total_seconds() * 1000))`
unfoldable pub sla_remaining_ms : PipelineTask → ℕ → ℕ
sla_remaining_ms task now = (task.sla_deadline - now) / 1000
