-- ===== src/Pipeline/Steps.antt =====
-- The invariant and each transaction.
use ninai.Base.{
  All-map, Bool, Bool-cases, Exception, List, Option, Outcome, [], append-All, arith, false, first,
  if◌then◌else◌, inl, inr, leb, none, ok, order_by, permission_error, raise, raise_if, refl, some,
  sym, true, update-All, ℕ, ◌++◌, ◌==◌, ◌>>=◌, ◌>>◌, ◌∙◌, ◌∷◌, ◌≡◌, ◌≤◌,
}
use ninai.Pipeline.{
  AuditEvent, PipelineTask, Scope, Store, Text, failed, get_task, lacks, log_event,
  max_retries_exceeded, pipeline_dequeue, pipeline_enqueue, pipeline_update, same_status, save,
  task_blocked, task_enqueued, task_failed, task_started, task_succeeded,
}
use ninai.Pipeline.Dequeue.{first-free}
use ninai.Pipeline.Invariant.{
  IsValid, Keeps, TaskIsValid, TaskIsValid-mono, check_and_quarantine-Quarantined, get_task-IsValid,
  log_event-IsValid, save-IsValid,
}
use ninai.Pipeline.Quarantine.{check_and_quarantine}
use ninai.Pipeline.Scheduler.{
  BlockReason, NewTask, block, candidates, comes_before, created, dequeue_next_by_sla,
  enqueue_pipeline_task, fail, found, is_exhausted, mark_blocked, mark_failed, mark_succeeded,
  start, started, succeed,
}

never : {A : Type 0} → false ≡ true → A
never h = cc

-- A change of a stored task that does not fail it, then the audit event.
pub write-IsValid :
    (e : AuditEvent) (t t' : PipelineTask) (db : Store)
    → IsValid db
    → t'.attempts ≤ t'.max_attempts
    → same_status t'.status failed ≡ false
    → IsValid (log_event e (save t' db))
write-IsValid e t t' db h a f =
    log_event-IsValid e (save t' db) (save-IsValid t' db (a, λ s. never (sym f ∙ s)) h)

-- A guard in front of a step, and a row that the step needs.
pub guarded-Keeps :
    {A : Type 0} (b : Bool) (e : Exception) (m : Outcome (A × Store))
    → Keeps m
    → Keeps (raise_if b e >> m)
guarded-Keeps true e m h = tt
guarded-Keeps false e m h = h

pub found-Keeps :
    {A B : Type 0} (o : Option A) (k : A → Outcome (B × Store))
    → ((a : A) → o ≡ some a → Keeps (k a))
    → Keeps (found o >>= k)
found-Keeps none k h = tt
found-Keeps (some a) k h = h a refl

pub chain-Keeps :
    {A B : Type 0} (o : Outcome A) (k : A → Outcome (B × Store))
    → ((a : A) → Keeps (k a))
    → Keeps (o >>= k)
chain-Keeps (ok a) k h = h a
chain-Keeps (raise e) k h = tt

pub enqueue_pipeline_task-Keeps :
    (n : NewTask) (scopes : Option (List Scope)) (now : ℕ) (db : Store)
    → IsValid db
    → Keeps (enqueue_pipeline_task n scopes now db)
unfolding enqueue_pipeline_task created
enqueue_pipeline_task-Keeps n scopes now db h =
    guarded-Keeps (lacks scopes pipeline_enqueue) permission_error
      (ok (
        created n now,
        log_event (task_enqueued n.id) (record db { tasks = db.tasks ++ created n now ∷ [] }),
      ))
      (log_event-IsValid (task_enqueued n.id) (record db { tasks = db.tasks ++ created n now ∷ [] })
        (record {
          tasks_valid =
              append-All (TaskIsValid db.dead_letters) db.tasks (created n now ∷ []) h.tasks_valid
                ((omega arith, λ s. never s), tt);
          entry_once = h.entry_once;
        }))

started-IsValid :
    (locked : ℕ → Bool) (org_id now : ℕ) (db : Store) (o : Option PipelineTask)
    → first (order_by (comes_before now) (candidates locked org_id db)) ≡ o
    → IsValid db
    → IsValid (started now o db).1
unfolding started start
started-IsValid locked org_id now db none e h = h
started-IsValid locked org_id now db (some t) e h =
    let row = first-free locked org_id now db (TaskIsValid db.dead_letters) t e h.tasks_valid in
    write-IsValid (task_started t.id) t (start now t) db h (ground arith) refl

pub dequeue_next_by_sla-Keeps :
    (locked : ℕ → Bool) (org_id : ℕ) (scopes : Option (List Scope)) (now : ℕ) (db : Store)
    → IsValid db
    → Keeps (dequeue_next_by_sla locked org_id scopes now db)
unfolding dequeue_next_by_sla
dequeue_next_by_sla-Keeps locked org_id scopes now db h =
    let next = first (order_by (comes_before now) (candidates locked org_id db)) in
    guarded-Keeps (lacks scopes pipeline_dequeue) permission_error (ok (started now next db))
      (started-IsValid locked org_id now db next refl h)

pub mark_succeeded-Keeps :
    (id : ℕ) (tokens latency : Option ℕ) (scopes : Option (List Scope)) (now : ℕ) (db : Store)
    → IsValid db
    → Keeps (mark_succeeded id tokens latency scopes now db)
unfolding mark_succeeded succeed
mark_succeeded-Keeps id tokens latency scopes now db h =
    guarded-Keeps (lacks scopes pipeline_update) permission_error _ (
      found-Keeps (get_task id db) _ (λ t e.
        write-IsValid (task_succeeded t.id) t (succeed tokens latency now t) db h
          (get_task-IsValid id db t e h).0 refl))

pub mark_blocked-Keeps :
    (id : ℕ) (reason : BlockReason) (on : Option ℕ) (scopes : Option (List Scope)) (db : Store)
    → IsValid db
    → Keeps (mark_blocked id reason on scopes db)
unfolding mark_blocked block
mark_blocked-Keeps id reason on scopes db h =
    guarded-Keeps (lacks scopes pipeline_update) permission_error _ (
      found-Keeps (get_task id db) _ (λ t e.
        write-IsValid (task_blocked t.id) t (block reason on t) db h
          (get_task-IsValid id db t e h).0 refl))

-- The last attempt: the task is failed and quarantined in one transaction.
failed-Keeps :
    (dlq_id now : ℕ) (t' : PipelineTask) (db : Store)
    → IsValid db
    → t'.attempts ≡ t'.max_attempts
    → same_status t'.status failed ≡ true
    → Keeps (
        check_and_quarantine dlq_id t' max_retries_exceeded now
          (log_event (task_failed t'.id) (save t' db))
        >>= λ r. ok (t', r.1))
unfolding save log_event
failed-Keeps dlq_id now t' db h a f =
    let q =
      check_and_quarantine-Quarantined dlq_id t' max_retries_exceeded now
        (log_event (task_failed t'.id) (save t' db)) f h.entry_once in
    rw q.1 (record {
      tasks_valid = rw q.2.same_tasks (
          update-All (λ u. u.id == t'.id) (λ u. t') (TaskIsValid (q.0.1).dead_letters) db.tasks
            (λ u w e. (omega arith, λ s. inr (omega arith, q.2.has_entry)))
            (All-map
              (λ u w.
                TaskIsValid-mono db.dead_letters (q.0.1).dead_letters u (q.2.entries_kept u.id) w)
              db.tasks h.tasks_valid));
      entry_once = q.2.entry_once;
    })

if-Keeps :
    {A : Type 0} (b : Bool) (m n : Outcome (A × Store))
    → (b ≡ true → Keeps m)
    → (b ≡ false → Keeps n)
    → Keeps (if b then m else n)
if-Keeps true m n h k = h refl
if-Keeps false m n h k = k refl

-- What a failure leaves of a task.
fail-status :
    (error : Text) (now : ℕ) (t : PipelineTask)
    → same_status (fail error now t).status failed ≡ is_exhausted t
unfolding fail
fail-status error now t = elim (Bool-cases (is_exhausted t)) [
  | inl e ↦ rw e refl
  | inr e ↦ rw e refl
]

at_limit : (a m : ℕ) → a ≤ m → leb m a ≡ true → a ≡ m
at_limit a m h e = ground arith

pub mark_failed-Keeps :
    (dlq_id id : ℕ) (error : Text) (scopes : Option (List Scope)) (now : ℕ) (db : Store)
    → IsValid db
    → Keeps (mark_failed dlq_id id error scopes now db)
unfolding mark_failed
mark_failed-Keeps dlq_id id error scopes now db h =
    guarded-Keeps (lacks scopes pipeline_update) permission_error _ (
      found-Keeps (get_task id db) _ (λ t e.
        let v = get_task-IsValid id db t e h in
        let status = fail-status error now t in
        let t' = fail error now t in
        if-Keeps (is_exhausted t) _ _
          (λ x.
            failed-Keeps dlq_id now t' db h (at_limit t.attempts t.max_attempts v.0 x) (status ∙ x))
          (λ x. write-IsValid (task_failed t'.id) t t' db h v.0 (status ∙ x))))
