-- ===== src/Pipeline/Operator.antt =====
-- The two endpoints of backend/app/api/v1/endpoints/pipeline_tasks.py that change a task,
-- cancel_pipeline_task and retry_pipeline_task, behind their capability check. `completed_at`, which
-- both set, is no column of the table.
use ninai.Base.{
  Bool, Option, Outcome, Text, [], false, http, leb, none, not, ok, raise, raise_if,
  scalar_one_or_none, select, some, true, ℕ, ◌&&◌, ◌++◌, ◌==◌, ◌>>=◌, ◌>>◌, ◌∷◌,
}
use ninai.Pipeline.{
  PipelineTask, PipelineTaskStatus, Store, blocked, failed, log_event, queued, running, same_status,
  save, task_cancelled, task_retried,
}

-- "Cancelled by "
abbrev pub cancelled_by : Text
cancelled_by = 67 ∷ 97 ∷ 110 ∷ 99 ∷ 101 ∷ 108 ∷ 108 ∷ 101 ∷ 100 ∷ 32 ∷ 98 ∷ 121 ∷ 32 ∷ []

abbrev pub found_or_404 {ℓ} : {A : Type ℓ} → Option A → Outcome A
found_or_404 none = raise (http 404)
found_or_404 (some a) = ok a

abbrev pub is_own : ℕ → ℕ → PipelineTask → Bool
is_own id org_id t = t.id == id && t.organization_id == org_id

abbrev pub is_cancellable : PipelineTaskStatus → Bool
is_cancellable queued = true
is_cancellable running = true
is_cancellable blocked = true
is_cancellable s = false

unfoldable pub cancel : Text → PipelineTask → PipelineTask
cancel email t = record t { status = failed; last_error = some (cancelled_by ++ email) }

unfoldable pub cancel_pipeline_task : ℕ → ℕ → Text → Store → Outcome (PipelineTask × Store)
unfolding cancel save log_event
cancel_pipeline_task id org_id email db = do
  row ← scalar_one_or_none (select (is_own id org_id) db.tasks)
  t ← found_or_404 row
  raise_if (not (is_cancellable t.status)) (http 400)
  let t' = cancel email t
  ok (t', log_event (task_cancelled t'.id) (save t' db))

unfoldable pub retry : PipelineTask → PipelineTask
retry t = record t { status = queued; last_error = none; started_at = none; duration_ms = none }

unfoldable pub retry_pipeline_task : ℕ → ℕ → Store → Outcome (PipelineTask × Store)
unfolding retry save log_event
retry_pipeline_task id org_id db = do
  row ← scalar_one_or_none (select (is_own id org_id) db.tasks)
  t ← found_or_404 row
  raise_if (not (same_status t.status failed)) (http 400)
  raise_if (leb t.max_attempts t.attempts) (http 400)
  let t' = retry t
  ok (t', log_event (task_retried t'.id) (save t' db))
