-- ===== src/AgentScheduler.antt =====
-- backend/app/services/agent_scheduler_service.py over the rows of
-- backend/app/models/agent_process.py. Each call is one transaction; rows that another transaction
-- has locked are the argument `locked` of the dequeue. Reasons and metadata are left out.
pub mod Rows
pub mod Bounds
pub mod Choice
mod Tests
use ninai.Base.{
  Bool, List, Option, Outcome, [], any, count, false, first, if◌then◌else◌, integrity_error, leb,
  ltb, none, not, ok, order_by, permission_error, raise, raise_if, select, some, true, update,
  value_error, ℕ, ◌&&◌, ◌++◌, ◌+◌, ◌==◌, ◌>>◌, ◌||◌, ◌∷◌,
}

pub data ProcessStatus : Type 0 where
  queued running blocked succeeded failed : ProcessStatus

abbrev pub is_queued : ProcessStatus → Bool
is_queued queued = true
is_queued running = false
is_queued blocked = false
is_queued succeeded = false
is_queued failed = false

abbrev pub is_running : ProcessStatus → Bool
is_running queued = false
is_running running = true
is_running blocked = false
is_running succeeded = false
is_running failed = false

-- ALLOWED_TERMINAL_STATUSES
abbrev pub is_terminal : ProcessStatus → Bool
is_terminal queued = false
is_terminal running = false
is_terminal blocked = true
is_terminal succeeded = true
is_terminal failed = true

pub record AgentProcess : Type 0 where
  pub id : ℕ
  pub organization_id : ℕ
  pub priority : ℕ
  pub status : ProcessStatus
  pub attempts : ℕ
  pub max_attempts : ℕ
  pub created_at : ℕ
  pub started_at : Option ℕ
  pub finished_at : Option ℕ

pub data Scope : Type 0 where
  scheduler_enqueue scheduler_dequeue scheduler_update : Scope
  another_scope : ℕ → Scope

abbrev pub same_scope : Scope → Scope → Bool
same_scope scheduler_enqueue scheduler_enqueue = true
same_scope scheduler_dequeue scheduler_dequeue = true
same_scope scheduler_update scheduler_update = true
same_scope (another_scope a) (another_scope b) = a == b
same_scope a b = false

-- `_ensure_scope` for one required scope; no scopes at all are the empty set.
abbrev pub ensure_scope : Scope → List Scope → Outcome (Unit {0})
ensure_scope required provided =
    raise_if (not (any (λ s. same_scope s required) provided)) permission_error

abbrev pub has_id : ℕ → AgentProcess → Bool
has_id k p = p.id == k

pub record NewProcess : Type 0 where
  pub id : ℕ
  pub organization_id : ℕ
  pub priority : ℕ
  pub max_attempts : ℕ

abbrev pub new_process : NewProcess → ℕ → AgentProcess
new_process n now = record {
  id = n.id;
  organization_id = n.organization_id;
  priority = n.priority;
  status = queued;
  attempts = 0;
  max_attempts = n.max_attempts;
  created_at = now;
  started_at = none;
  finished_at = none;
}

-- The primary key refuses an id that is in use.
unfoldable pub enqueue :
    NewProcess → List Scope → ℕ → List AgentProcess → Outcome (List AgentProcess)
enqueue n scopes now ps =
    ensure_scope scheduler_enqueue scopes
    >> (raise_if (any (has_id n.id) ps) integrity_error >> ok (ps ++ new_process n now ∷ []))

abbrev pub runs_for : ℕ → AgentProcess → Bool
runs_for org_id p = p.organization_id == org_id && is_running p.status

-- _running_count
abbrev pub running_count : ℕ → List AgentProcess → ℕ
running_count org_id ps = count (runs_for org_id) ps

abbrev pub is_runnable : ℕ → AgentProcess → Bool
is_runnable org_id p =
    p.organization_id == org_id && (is_queued p.status && ltb p.attempts p.max_attempts)

-- `ORDER BY priority DESC, created_at ASC`
abbrev pub comes_before : AgentProcess → AgentProcess → Bool
comes_before p q =
    ltb q.priority p.priority || (p.priority == q.priority && ltb p.created_at q.created_at)

abbrev pub candidates : (ℕ → Bool) → ℕ → List AgentProcess → List AgentProcess
candidates locked org_id ps = select (λ p. is_runnable org_id p && not (locked p.id)) ps

abbrev pub start : ℕ → AgentProcess → AgentProcess
start now p = record p { status = running; attempts = p.attempts + 1; started_at = some now }

unfoldable pub started :
    ℕ → List AgentProcess → Option AgentProcess → Option AgentProcess × List AgentProcess
started now ps none = (none, ps)
started now ps (some p) = (some (start now p), update (has_id p.id) (start now) ps)

-- dequeue_next; it checks no scope (the call of _ensure_scope stands in its docstring).
unfoldable pub dequeue_next :
    ℕ → (ℕ → Bool) → ℕ → ℕ → List AgentProcess → Option AgentProcess × List AgentProcess
unfolding started
dequeue_next max_running locked org_id now ps =
    if leb max_running (running_count org_id ps)
    then (none, ps)
    else started now ps (first (order_by comes_before (candidates locked org_id ps)))

abbrev pub finish : ProcessStatus → ℕ → AgentProcess → AgentProcess
finish status now p = record p { status = status; finished_at = some now }

-- _mark_terminal; a process that is not there is passed over.
unfoldable pub mark_terminal :
    ProcessStatus → ℕ → List Scope → ℕ → List AgentProcess → Outcome (List AgentProcess)
mark_terminal status process_id scopes now ps =
    raise_if (not (is_terminal status)) value_error
    >> (ensure_scope scheduler_update scopes
        >> ok (update (has_id process_id) (finish status now) ps))

abbrev pub requeued : AgentProcess → AgentProcess
requeued p = record p { status = queued; started_at = none; finished_at = none }

unfoldable pub reset_to_queue : ℕ → List Scope → List AgentProcess → Outcome (List AgentProcess)
reset_to_queue process_id scopes ps =
    ensure_scope scheduler_update scopes >> ok (update (has_id process_id) requeued ps)

-- The calls of the service, each a transaction of its own.
pub data Request : Type 0 where
  enqueuing : NewProcess → List Scope → Request
  dequeuing : (ℕ → Bool) → ℕ → Request
  marking : ProcessStatus → ℕ → List Scope → Request
  resetting : ℕ → List Scope → Request

-- A transaction that raises is rolled back.
abbrev pub committed : List AgentProcess → Outcome (List AgentProcess) → List AgentProcess
committed ps (ok ps') = ps'
committed ps (raise e) = ps

unfoldable pub serve : ℕ → Request → ℕ → List AgentProcess → List AgentProcess
serve max_running (enqueuing n scopes) now ps = committed ps (enqueue n scopes now ps)
serve max_running (dequeuing locked org_id) now ps =
    (dequeue_next max_running locked org_id now ps).1
serve max_running (marking status id scopes) now ps =
    committed ps (mark_terminal status id scopes now ps)
serve max_running (resetting id scopes) now ps = committed ps (reset_to_queue id scopes ps)

unfoldable pub run : ℕ → List (Request × ℕ) → List AgentProcess → List AgentProcess
run max_running [] ps = ps
run max_running ((r, now) ∷ rs) ps = run max_running rs (serve max_running r now ps)
