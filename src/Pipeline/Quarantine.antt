-- ===== src/Pipeline/Quarantine.antt =====
-- check_and_quarantine of backend/app/services/dead_letter_queue_service.py. The id of a new row is an argument.
use ninai.Base.{
  Bool, List, Option, Outcome, [], false, if◌then◌else◌, limit, min, none, not, ok,
  scalar_one_or_none, select, some, true, ℕ, ◌++◌, ◌+◌, ◌==◌, ◌>>=◌, ◌∷◌,
}
use ninai.Pipeline.{
  DeadLetterTask, FailureReason, PipelineTask, Store, TaskType, Text, consolidation_upper,
  critique_upper, failed, log_event, same_status, sla_breached, task_quarantined,
}

-- `task.last_error[:100]`, for an error that is not empty
error_pattern_of : Option Text → Option Text
error_pattern_of none = none
error_pattern_of (some []) = none
error_pattern_of (some (c ∷ cs)) = some (limit 100 (c ∷ cs))

abbrev pub is_upper : TaskType → Bool
is_upper consolidation_upper = true
is_upper critique_upper = true
is_upper _ = false

unfoldable pub review_priority_of : PipelineTask → ℕ → ℕ
unfolding sla_breached
review_priority_of task now =
    min (5 + (if sla_breached task now then 3 else 0) + (if is_upper task.task_type then 2 else 0))
      10

unfoldable pub dead_letter : ℕ → PipelineTask → FailureReason → ℕ → DeadLetterTask
unfolding error_pattern_of
dead_letter id task reason now = record {
  id = id;
  organization_id = task.organization_id;
  original_task_id = task.id;
  task_type = task.task_type;
  failure_reason = reason;
  total_attempts = task.attempts;
  last_error = task.last_error;
  error_pattern = error_pattern_of task.last_error;
  payload_type = task.task_type;
  payload_priority = task.priority;
  payload_category = task.sla_category;
  quarantined_at = now;
  reviewed_at = none;
  reviewed_by = none;
  resolution = none;
  resolution_notes = none;
  is_resolved = false;
  review_priority = review_priority_of task now;
}

-- The query for an entry of the task.
abbrev pub entries_of : ℕ → Store → List DeadLetterTask
entries_of task_id db = select (λ d. d.original_task_id == task_id) db.dead_letters

unfoldable pub add_entry : DeadLetterTask → Store → Store
unfolding log_event
add_entry d db =
    log_event (task_quarantined d.id) (record db { dead_letters = db.dead_letters ++ d ∷ [] })

unfoldable pub quarantine_new :
    ℕ
    → PipelineTask
    → FailureReason
    → ℕ
    → Store
    → Option DeadLetterTask
    → Option DeadLetterTask × Store
unfolding dead_letter add_entry
quarantine_new id task reason now db (some existing) = (none, db)
quarantine_new id task reason now db none =
    let d = dead_letter id task reason now in (some d, add_entry d db)

unfoldable pub check_and_quarantine :
    ℕ → PipelineTask → FailureReason → ℕ → Store → Outcome (Option DeadLetterTask × Store)
unfolding quarantine_new
check_and_quarantine id task reason now db =
    if not (same_status task.status failed)
    then ok (none, db)
    else scalar_one_or_none (entries_of task.id db) >>= λ existing.
        ok (quarantine_new id task reason now db existing)
