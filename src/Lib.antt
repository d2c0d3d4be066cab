-- ===== src/Lib.antt =====
-- Verification of the backend of Ninai (backend/app): the server that keeps an organization's
-- memories, decides who may use them, and schedules the background work on them.
--
-- Base is shared: Boolean tests on numbers, tables as lists of rows with the queries that the code
-- makes over them (Rows, Ordering, and their laws), and what a call ends in, a value or an exception
-- (Results). A file of a part is the data and the operations; the files below it are further
-- operations and, named for what they prove, the proofs; its Tests hold runs and examples.
--
-- Access: backend/app/services/permission_checker.py over the tables of backend/app/models/memory.py
-- and backend/app/models/team.py. Access.Checker is check_memory_access with _check_team_access,
-- _check_share_access and _check_scope_access, and explain_access; Access.Filter is
-- filter_memory_ids_with_access, loop by loop. Both compare a column without a time zone with a time
-- that has one; whether the database's driver takes that is part of the state. Access.Policy says what both promise, without their
-- queries and order of tests, and the rest prove it and compare the two.
--
-- Pipeline: backend/app/services/sla_scheduler_service.py and
-- backend/app/services/dead_letter_queue_service.py over one store with the rows of
-- backend/app/models/pipeline_task.py and backend/app/models/dead_letter_queue.py and the audit
-- events. Scheduler has the operations on tasks, Quarantine and Review those of the dead-letter
-- queue, Operator the two endpoints of backend/app/api/v1/endpoints/pipeline_tasks.py that cancel and
-- retry a task, Stats get_queue_stats. mark_failed hands a task whose attempts are used up to
-- check_and_quarantine, and requeue_task calls enqueue_pipeline_task. Requests makes each
-- transaction one step on the store; one that raises is rolled back.
-- backend/app/services/dlq_service.py also works on these rows; it reads columns that the table does
-- not have, so its calls raise before they change anything, and it is no step here.
--
-- CircuitBreaker: backend/app/core/circuit_breaker.py. Each section under the lock is one event, so
-- calls in flight are arbitrary orders of events; Registry is CircuitBreakerRegistry.
--
-- Rbac: backend/app/core/rbac.py, with the decorators around an endpoint's outcome and the role of
-- backend/app/models/user.py.
--
-- CapabilityToken: backend/app/services/capability_token_service.py and
-- backend/app/models/capability_token.py: Service has the operations, Scopes the comma-separated
-- text of the scopes.
--
-- Permissions: the permission lists of backend/app/services/permission_checker.py
-- (get_effective_permissions, _load_permissions_from_db, check_permission, invalidate_user_cache)
-- with the calls of backend/app/core/redis.py that they make. The Redis server is the interface
-- Redis with the laws of its commands; its law of the scan speaks of prefixes without the characters of a
-- glob pattern. Memory fills it in for the tests.
--
-- Cognition: the agents' tools and the loop that uses them. Registry, Guard and Invoker are
-- backend/app/services/cognitive_tooling (tool_registry.py, policy_guard.py, tool_invoker.py with
-- the rows of tool_call_log_service.py); Guard calls Permissions.check_permission. Executor, Patch
-- and Orchestrator are executor_agent.py and orchestrator.py of backend/app/services/cognitive_loop,
-- over the rows of its repository.py. The handlers change surroundings of any type, which say
-- what database, clock and cache each of the guard's permission checks meets; the planner, the critic, the evidence search and the simulator are
-- the interface Agents. LoopRule is the rule for invariants of the loop, whose rounds are bounded by
-- max_iterations.
--
-- AgentScheduler: backend/app/services/agent_scheduler_service.py over the rows of
-- backend/app/models/agent_process.py. Bounds is about sequences of its transactions, Choice about
-- the dequeue, Rows about counting rows with a key.
--
-- RateLimiter: check_rate_limit of backend/app/services/rate_limiter.py. The sorted sets of Redis
-- are the interface Server with the laws of its commands; Window is about sequences of calls, Limits
-- adds the defaults and the key prefix. Quota models the monthly quotas over the interface Counters,
-- Charges is about sequences of charges. Admission models check_admission of
-- backend/app/services/resource_accounting.py over both limiters, Refusals what it uses up. FixedWindow
-- models the decorator of backend/app/middleware/rate_limiter.py, FirstCome which requests it lets
-- through.
--
-- Knowledge: backend/app/services/knowledge_review_service.py over the tables of
-- backend/app/models/knowledge_item.py, knowledge_item_version.py and knowledge_review_request.py.
-- What approving does in the memory service is a parameter, the outcome of that call.
-- Calls makes each call one step on the tables; one that raises is rolled back.
--
-- How the code is read. Ids are numbers where the code only compares them, and texts in Permissions
-- and Cognition, where they are part of keys. Times are microseconds,
-- the resolution of datetime, and every clock that an operation reads is its argument `now`;
-- a clock does not run backwards. Strings that the code compares with constants are data types with
-- one constructor for every other string. A database table is a list of rows; a query without ORDER
-- BY returns them in the order of the list, and an ORDER BY leaves ties in that order. Rows that
-- another transaction has locked are an argument of the dequeue. uuid4 and the database's own ids
-- are arguments. Every loop of the code runs over a list and is structural recursion here, so no
-- fuel is needed. Messages for people, log lines and the details of audit events are left out.
--
-- Not modelled: the HTTP layer and its schemas, the language-model agents, Qdrant, S3 and
-- Elasticsearch clients, Celery's wiring, migrations, the web frontend, the SDKs, and the services
-- that are mainly queries or calls of those.
pub mod Base
pub mod Access
pub mod Pipeline
pub mod CircuitBreaker
pub mod Rbac
pub mod CapabilityToken
pub mod Knowledge
pub mod Permissions
pub mod Cognition
pub mod AgentScheduler
pub mod RateLimiter
