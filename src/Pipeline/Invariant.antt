-- ===== src/Pipeline/Invariant.antt =====
-- What a store is to keep, and what the quarantine does to it.
use mathlib.Core.Path.{subst}
use ninai.Base.{
  ==_iff, ==_refl, All, All-find?, All-map, Bool, Bool-cases, List, Option, Outcome, Text, [], any,
  any-append, any_of_find?, arith, count, count-append, count_of_find?-none, false, find?,
  if◌then◌else◌, inl, inr, none, ok, raise, refl, scalar_unique, some, true, update-All, ℕ, ◌&&◌,
  ◌+◌, ◌==◌, ◌∷◌, ◌≡◌, ◌≤◌, ◌⊎◌,
}
use ninai.Pipeline.{
  AuditEvent, DeadLetterTask, FailureReason, PipelineTask, Store, failed, get_task, log_event,
  same_status, save,
}
use ninai.Pipeline.Operator.{cancelled_by}
use ninai.Pipeline.Quarantine.{add_entry, check_and_quarantine, dead_letter, quarantine_new}

-- The error that the cancel endpoint leaves.
abbrev pub starts_with : Text → Text → Bool
starts_with [] s = true
starts_with (c ∷ cs) [] = false
starts_with (c ∷ cs) (d ∷ ds) = c == d && starts_with cs ds

abbrev pub is_cancelled : Option Text → Bool
is_cancelled none = false
is_cancelled (some e) = starts_with cancelled_by e

-- No task starts more often than it may; a failed task has the error of a cancellation, or has
-- used its attempts up and has an entry in the dead-letter queue; no task has two entries.
abbrev pub TaskIsValid : List DeadLetterTask → PipelineTask → Type 0
TaskIsValid ds t =
    (t.attempts ≤ t.max_attempts)
    × (same_status t.status failed ≡ true
        → (is_cancelled t.last_error ≡ true)
          ⊎ ((t.max_attempts ≤ t.attempts) × (any (λ d. d.original_task_id == t.id) ds ≡ true)))

-- A task stays valid where the entries are kept.
pub TaskIsValid-mono :
    (ds ds' : List DeadLetterTask) (t : PipelineTask)
    → (any (λ d. d.original_task_id == t.id) ds ≡ true
        → any (λ d. d.original_task_id == t.id) ds' ≡ true)
    → TaskIsValid ds t
    → TaskIsValid ds' t
TaskIsValid-mono ds ds' t k v = (v.0, λ f. kept (v.1 f))
  where
    kept :
        (is_cancelled t.last_error ≡ true)
          ⊎ ((t.max_attempts ≤ t.attempts) × (any (λ d. d.original_task_id == t.id) ds ≡ true))
        → (is_cancelled t.last_error ≡ true)
          ⊎ ((t.max_attempts ≤ t.attempts) × (any (λ d. d.original_task_id == t.id) ds' ≡ true))
    kept (inl c) = inl c
    kept (inr (m, e)) = inr (m, k e)

pub record IsValid (db : Store) : Type 0 where
  pub tasks_valid : All (TaskIsValid db.dead_letters) db.tasks
  pub entry_once : (id : ℕ) → count (λ d. d.original_task_id == id) db.dead_letters ≤ 1

abbrev pub Keeps {ℓ} : {A : Type ℓ} → Outcome (A × Store) → Type 0
Keeps (ok r) = IsValid r.1
Keeps (raise e) = Unit

-- Writing back a valid object.
pub save-IsValid :
    (t : PipelineTask) (db : Store)
    → TaskIsValid db.dead_letters t
    → IsValid db
    → IsValid (save t db)
unfolding save
save-IsValid t db v h = record {
  tasks_valid =
      update-All (λ u. u.id == t.id) (λ u. t) (TaskIsValid db.dead_letters) db.tasks (λ u w e. v)
        h.tasks_valid;
  entry_once = h.entry_once;
}

pub log_event-IsValid : (e : AuditEvent) (db : Store) → IsValid db → IsValid (log_event e db)
unfolding log_event
log_event-IsValid e db h = record { tasks_valid = h.tasks_valid; entry_once = h.entry_once }

pub get_task-IsValid :
    (id : ℕ) (db : Store) (t : PipelineTask)
    → get_task id db ≡ some t
    → IsValid db
    → TaskIsValid db.dead_letters t
get_task-IsValid id db t e h =
    All-find? (TaskIsValid db.dead_letters) (λ u. u.id == id) db.tasks t e h.tasks_valid

-- What a quarantine does to the store, for a task that has failed.
pub record Quarantined (t : PipelineTask) (db db' : Store) : Type 0 where
  pub same_tasks : db'.tasks ≡ db.tasks
  pub entry_once : (id : ℕ) → count (λ d. d.original_task_id == id) db'.dead_letters ≤ 1
  pub has_entry : any (λ d. d.original_task_id == t.id) db'.dead_letters ≡ true
  pub entries_kept :
      (id : ℕ)
      → any (λ d. d.original_task_id == id) db.dead_letters ≡ true
      → any (λ d. d.original_task_id == id) db'.dead_letters ≡ true

-- One more entry, for a task that has none.
new_entry_once :
    (task_id i : ℕ) (ds : List DeadLetterTask)
    → count (λ d. d.original_task_id == i) ds ≤ 1
    → count (λ d. d.original_task_id == task_id) ds ≡ 0
    → count (λ d. d.original_task_id == i) ds + (if task_id == i then 1 else 0) ≤ 1
new_entry_once task_id i ds once unseen = elim (Bool-cases (task_id == i)) [
  | inl e ↦
      let zero_too =
        subst (λ j. count (λ d. d.original_task_id == j) ds ≡ 0) ((==_iff task_id i).0 e) unseen in
      rw e (omega arith)
  | inr e ↦ rw e (omega arith)
]

quarantine_new-Quarantined :
    (id : ℕ) (t : PipelineTask) (reason : FailureReason) (now : ℕ) (db : Store)
    (o : Option DeadLetterTask)
    → ((i : ℕ) → count (λ d. d.original_task_id == i) db.dead_letters ≤ 1)
    → find? (λ d. d.original_task_id == t.id) db.dead_letters ≡ o
    → Quarantined t db (quarantine_new id t reason now db o).1
unfolding quarantine_new add_entry log_event dead_letter
quarantine_new-Quarantined id t reason now db (some d) once e = record {
  same_tasks = refl;
  entry_once = once;
  has_entry = any_of_find? (λ d. d.original_task_id == t.id) db.dead_letters d e;
  entries_kept = λ i h. h;
}
quarantine_new-Quarantined id t reason now db none once e =
    let entry = dead_letter id t reason now in
    record {
      same_tasks = refl;
      entry_once = λ i.
          rw (count-append (λ d. d.original_task_id == i) db.dead_letters (entry ∷ [])) (
            new_entry_once t.id i db.dead_letters (once i)
              (count_of_find?-none (λ d. d.original_task_id == t.id) db.dead_letters e));
      has_entry =
          rw (any-append (λ d. d.original_task_id == t.id) db.dead_letters (entry ∷ []))
            (rw (==_refl t.id) (ground arith));
      entries_kept = λ i h.
          rw (any-append (λ d. d.original_task_id == i) db.dead_letters (entry ∷ [])) (rw h refl);
    }

pub check_and_quarantine-Quarantined :
    (id : ℕ) (t : PipelineTask) (reason : FailureReason) (now : ℕ) (db : Store)
    → same_status t.status failed ≡ true
    → ((i : ℕ) → count (λ d. d.original_task_id == i) db.dead_letters ≤ 1)
    → (r : Option DeadLetterTask × Store) × (check_and_quarantine id t reason now db ≡ ok r)
      × Quarantined t db r.1
unfolding check_and_quarantine
check_and_quarantine-Quarantined id t reason now db f once = (
  quarantine_new id t reason now db (find? (λ d. d.original_task_id == t.id) db.dead_letters),
  rw f (rw (scalar_unique (λ d. d.original_task_id == t.id) db.dead_letters (once t.id)) refl),
  quarantine_new-Quarantined id t reason now db
      (find? (λ d. d.original_task_id == t.id) db.dead_letters) once refl,
)

idle :
    (id : ℕ) (t : PipelineTask) (reason : FailureReason) (now : ℕ) (db : Store)
    → same_status t.status failed ≡ false
    → check_and_quarantine id t reason now db ≡ ok (none, db)
unfolding check_and_quarantine
idle id t reason now db f = rw f refl

-- Quarantining any task keeps a store valid.
pub check_and_quarantine-Keeps :
    (id : ℕ) (t : PipelineTask) (reason : FailureReason) (now : ℕ) (db : Store)
    → IsValid db
    → Keeps (check_and_quarantine id t reason now db)
check_and_quarantine-Keeps id t reason now db h = elim (Bool-cases (same_status t.status failed)) [
  | inl f ↦
      let q = check_and_quarantine-Quarantined id t reason now db f h.entry_once in
      rw q.1 (record {
        tasks_valid = rw q.2.same_tasks (
            All-map
              (λ u w.
                TaskIsValid-mono db.dead_letters (q.0.1).dead_letters u (q.2.entries_kept u.id) w)
              db.tasks h.tasks_valid);
        entry_once = q.2.entry_once;
      })
  | inr f ↦ rw (idle id t reason now db f) h
]
