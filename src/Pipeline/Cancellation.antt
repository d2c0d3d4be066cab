-- ===== src/Pipeline/Cancellation.antt =====
-- The operator's endpoints keep a store valid.
-- A row that a query returns, if it returns one.
use ninai.Base.{
  All, All-map, List, Outcome, Text, [], http, inl, leb, not, refl, scalar_one_or_none, select,
  select-All, ℕ, ◌>>=◌, ◌∷◌,
}
use ninai.Pipeline.{PipelineTask, Store, failed, same_status, save, task_cancelled, task_retried}
use ninai.Pipeline.Invariant.{IsValid, Keeps, TaskIsValid, log_event-IsValid, save-IsValid}
use ninai.Pipeline.Operator.{
  cancel, cancel_pipeline_task, found_or_404, is_cancellable, is_own, retry, retry_pipeline_task,
}
use ninai.Pipeline.Steps.{guarded-Keeps, write-IsValid}

row-Keeps :
    {B : Type 0} (P : PipelineTask → Type 0) (rows : List PipelineTask)
    (k : PipelineTask → Outcome (B × Store))
    → All P rows
    → ((t : PipelineTask) → P t → Keeps (k t))
    → Keeps (scalar_one_or_none rows >>= λ row. (found_or_404 row >>= k))
row-Keeps P [] k ps h = tt
row-Keeps P (t ∷ []) k ps h = h t ps.0
row-Keeps P (t ∷ u ∷ l) k ps h = tt

own_rows-valid :
    (id org_id : ℕ) (db : Store)
    → IsValid db
    → All (TaskIsValid db.dead_letters) (select (is_own id org_id) db.tasks)
own_rows-valid id org_id db h =
    All-map (λ t b. b.0) (select (is_own id org_id) db.tasks)
      (select-All (is_own id org_id) (TaskIsValid db.dead_letters) db.tasks h.tasks_valid)

pub cancel_pipeline_task-Keeps :
    (id org_id : ℕ) (email : Text) (db : Store)
    → IsValid db
    → Keeps (cancel_pipeline_task id org_id email db)
unfolding cancel_pipeline_task cancel
cancel_pipeline_task-Keeps id org_id email db h =
    row-Keeps (TaskIsValid db.dead_letters) (select (is_own id org_id) db.tasks) _
      (own_rows-valid id org_id db h)
      (λ t v. guarded-Keeps (not (is_cancellable t.status)) (http 400) _ (
        log_event-IsValid (task_cancelled t.id) (save (cancel email t) db)
          (save-IsValid (cancel email t) db (v.0, λ f. inl refl) h)))

pub retry_pipeline_task-Keeps :
    (id org_id : ℕ) (db : Store) → IsValid db → Keeps (retry_pipeline_task id org_id db)
unfolding retry_pipeline_task retry
retry_pipeline_task-Keeps id org_id db h =
    row-Keeps (TaskIsValid db.dead_letters) (select (is_own id org_id) db.tasks) _
      (own_rows-valid id org_id db h)
      (λ t v. guarded-Keeps (not (same_status t.status failed)) (http 400) _ (
        guarded-Keeps (leb t.max_attempts t.attempts) (http 400) _
          (write-IsValid (task_retried t.id) t (retry t) db h v.0 refl)))
