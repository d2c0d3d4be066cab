-- ===== src/Pipeline/Review.antt =====
-- The rest of backend/app/services/dead_letter_queue_service.py: the search for poison messages
-- and the review of the entries.
use ninai.Base.{
  Bool, List, Option, Outcome, String, [], any, false, if◌then◌else◌, leb, length, limit, ltb, none,
  not, ok, order_by, raise, raise_if, same_text, scalar_one_or_none, select, some, true, type_error,
  update, value_error, ℕ, ◌&&◌, ◌++◌, ◌+◌, ◌==◌, ◌>>=◌, ◌>>◌, ◌||◌, ◌∷◌,
}
use ninai.Pipeline.{
  DeadLetterTask, PipelineTask, Resolution, Scope, Store, TaskType, Text, discarded, failed,
  log_event, pipeline_enqueue, poison_message, requeued, same_status, task_discarded, task_requeued,
}
use ninai.Pipeline.Quarantine.{check_and_quarantine}
use ninai.Pipeline.Scheduler.{enqueue_pipeline_task, found}

-- GROUP BY over the first 100 characters; the groups come in the order of their first rows.
unfoldable pub add_to_group : Text → ℕ → List (Text × List ℕ) → List (Text × List ℕ)
add_to_group p id [] = (p, id ∷ []) ∷ []
add_to_group p id ((q, ids) ∷ gs) =
    let rest = add_to_group p id gs in
    if same_text p q then (q, ids ++ id ∷ []) ∷ gs else (q, ids) ∷ rest

unfoldable pub add_failure : Option Text → ℕ → List (Text × List ℕ) → List (Text × List ℕ)
unfolding add_to_group
add_failure none id gs = gs
add_failure (some e) id gs = add_to_group (limit 100 e) id gs

unfoldable pub group_failures : List PipelineTask → List (Text × List ℕ) → List (Text × List ℕ)
unfolding add_failure
group_failures [] gs = gs
group_failures (t ∷ ts) gs = group_failures ts (add_failure t.last_error t.id gs)

-- The groups of at least POISON_MESSAGE_FAILURE_THRESHOLD rows.
unfoldable pub poison_groups : ℕ → Store → List (Text × List ℕ)
unfolding group_failures
poison_groups org_id db =
    select (λ g. leb 3 (length g.1))
      (group_failures
        (select (λ t. t.organization_id == org_id && same_status t.status failed) db.tasks) [])

abbrev pub add_found : Option DeadLetterTask → List DeadLetterTask → List DeadLetterTask
add_found none ds = ds
add_found (some d) ds = ds ++ d ∷ []

-- One turn of the inner loop. `next_id` is the id of the next entry, should there be one.
unfoldable pub quarantine_one :
    ℕ
    → Option PipelineTask
    → ℕ
    → List DeadLetterTask × Store
    → Outcome (List DeadLetterTask × Store)
quarantine_one next_id none now (ds, db) = ok (ds, db)
quarantine_one next_id (some t) now (ds, db) =
    check_and_quarantine next_id t poison_message now db >>= λ r. ok (add_found r.0 ds, r.1)

unfoldable pub quarantine_all :
    ℕ → List ℕ → ℕ → List DeadLetterTask × Store → Outcome (List DeadLetterTask × Store)
unfolding quarantine_one
quarantine_all next_id [] now s = ok s
quarantine_all next_id (id ∷ ids) now s =
    scalar_one_or_none (select (λ t. t.id == id) (s.1).tasks) >>= λ t.
    (quarantine_one next_id t now s >>= λ s'. quarantine_all (next_id + 1) ids now s')

unfoldable pub quarantine_groups :
    ℕ
    → List (Text × List ℕ)
    → ℕ
    → List DeadLetterTask × Store
    → Outcome (List DeadLetterTask × Store)
quarantine_groups next_id [] now s = ok s
quarantine_groups next_id (g ∷ gs) now s =
    quarantine_all next_id g.1 now s >>= λ s'. quarantine_groups (next_id + length g.1) gs now s'

unfoldable pub detect_poison_messages : ℕ → ℕ → ℕ → Store → Outcome (List DeadLetterTask × Store)
detect_poison_messages next_id org_id now db =
    quarantine_groups next_id (poison_groups org_id db) now ([], db)

-- The keywords of the call in requeue_task and of the signature of enqueue_pipeline_task.
pub data Keyword : Type 0 where
  organization_id_key task_type_key input_session_id_key target_resource_id_key : Keyword
  sla_deadline_key actor_user_id_key sla_category_key priority_key metadata_key : Keyword

-- The parameters of enqueue_pipeline_task among them.
abbrev pub is_parameter : Keyword → Bool
is_parameter metadata_key = false
is_parameter k = true

-- A call of enqueue_pipeline_task by keywords, with the arguments that it gives.
pub record EnqueueCall : Type 0 where
  pub organization_id : Option ℕ
  pub task_type : Option TaskType
  pub input_session_id : Option ℕ
  pub target_resource_id : Option ℕ
  pub sla_deadline : Option ℕ
  pub actor_user_id : Option ℕ
  pub sla_category : Option String
  pub priority : ℕ
  pub keywords : List Keyword

abbrev pub required : {A : Type 0} → Option A → Outcome A
required none = raise type_error
required (some a) = ok a

unfoldable pub call_enqueue :
    ℕ → EnqueueCall → Option (List Scope) → ℕ → Store → Outcome (PipelineTask × Store)
call_enqueue new_id c scopes now db = do
  raise_if (any (λ k. not (is_parameter k)) c.keywords) type_error
  org_id ← required c.organization_id
  task_type ← required c.task_type
  session_id ← required c.input_session_id
  resource_id ← required c.target_resource_id
  deadline ← required c.sla_deadline
  actor ← required c.actor_user_id
  enqueue_pipeline_task
      (record {
        id = new_id;
        organization_id = org_id;
        task_type = task_type;
        input_session_id = session_id;
        target_resource_id = resource_id;
        sla_deadline = deadline;
        sla_category = c.sla_category;
        priority = c.priority;
        estimated_tokens = 0;
        estimated_latency_ms = 0;
      })
      scopes now db

-- The call as requeue_task writes it.
unfoldable pub requeue_call : DeadLetterTask → EnqueueCall
requeue_call d = record {
  organization_id = some d.organization_id;
  task_type = some d.payload_type;
  input_session_id = none;
  target_resource_id = none;
  sla_deadline = none;
  actor_user_id = none;
  sla_category = d.payload_category;
  priority = d.payload_priority;
  keywords =
      organization_id_key ∷ task_type_key ∷ priority_key ∷ sla_category_key ∷ metadata_key ∷ [];
}

unfoldable pub resolve : Resolution → ℕ → Option Text → ℕ → DeadLetterTask → DeadLetterTask
resolve r user_id notes now d = record d {
  is_resolved = true;
  resolution = some r;
  resolution_notes = notes;
  reviewed_at = some now;
  reviewed_by = some user_id;
}

unfoldable pub resolve_entry : Resolution → ℕ → ℕ → Option Text → ℕ → Store → Store
unfolding resolve
resolve_entry r dlq_id user_id notes now db = record db {
  dead_letters = update (λ d. d.id == dlq_id) (resolve r user_id notes now) db.dead_letters;
}

abbrev pub get_entry : ℕ → Store → Outcome (Option DeadLetterTask)
get_entry dlq_id db = scalar_one_or_none (select (λ d. d.id == dlq_id) db.dead_letters)

unfoldable pub requeue_task : ℕ → ℕ → ℕ → Option Text → ℕ → Store → Outcome (PipelineTask × Store)
unfolding call_enqueue requeue_call
requeue_task new_id dlq_id user_id notes now db = do
  entry ← get_entry dlq_id db
  d ← found entry
  raise_if d.is_resolved value_error
  r ← call_enqueue new_id (requeue_call d) (some (pipeline_enqueue ∷ [])) now db
  ok (r.0, log_event (task_requeued dlq_id) (resolve_entry requeued dlq_id user_id notes now r.1))

unfoldable pub discard_task : ℕ → ℕ → Option Text → ℕ → Store → Outcome (DeadLetterTask × Store)
unfolding resolve resolve_entry log_event
discard_task dlq_id user_id notes now db = do
  entry ← get_entry dlq_id db
  d ← found entry
  let db' = resolve_entry discarded dlq_id user_id notes now db
  ok (resolve discarded user_id notes now d, log_event (task_discarded dlq_id) db')

-- ORDER BY review_priority DESC, quarantined_at ASC
unfoldable pub reviewed_before : DeadLetterTask → DeadLetterTask → Bool
reviewed_before a b =
    ltb b.review_priority a.review_priority
    || (b.review_priority == a.review_priority && ltb a.quarantined_at b.quarantined_at)

abbrev pub is_pending : ℕ → DeadLetterTask → Bool
is_pending org_id d = d.organization_id == org_id && not d.is_resolved

unfoldable pub get_pending_review : ℕ → ℕ → Store → List DeadLetterTask
get_pending_review org_id n db =
    limit n (order_by reviewed_before (select (is_pending org_id) db.dead_letters))
