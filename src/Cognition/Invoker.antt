-- ===== src/Cognition/Invoker.antt =====
-- backend/app/services/cognitive_tooling/tool_invoker.py with the rows of
-- backend/app/services/cognitive_tooling/tool_call_log_service.py. A row's id is its position in
-- the log, its times and the warnings are left out, and the text of an error is the exception.
use ninai.Base.{
  Bool, Exception, List, Option, Outcome, Text, [], any, if◌then◌else◌, length, none, ok, raise,
  same_text, some, update, ℕ, ◌++◌, ◌∷◌,
}
use ninai.Cognition.Guard.{Checker, Reason, ToolContext, Verdict, allowed, authorize, refused}
use ninai.Cognition.Registry.{Payload, ToolRegistry, ToolSpec, get_spec, invoke_tool}
use ninai.Permissions.{Database, Redis}

-- The values of a payload, the encoder's length, and what the invocations happen in: the server
-- with the cache, and surroundings that handlers change and that say, for each of the guard's
-- permission checks, the database, the clock and what others have done to the cache by then.
pub record Environment : Type 1 where
  pub V : Type 0
  pub is_nested : V → Bool
  pub redacted : V
  pub json_len : Payload V → Option ℕ
  pub redis : Redis
  pub ttl : Option ℕ
  pub S : Type 0
  pub database : S → ℕ → Database
  pub now : S → ℕ → ℕ
  pub meanwhile : S → ℕ → redis.State → redis.State

pub data Summary (V : Type 0) : Type 0 where
  persisted : Payload V → Summary V
  counts : ℕ → Option ℕ → Bool → Summary V

pub data CallStatus : Type 0 where
  success denied failed : CallStatus

pub data OutputSummary (V : Type 0) : Type 0 where
  of_denial : Reason → OutputSummary V
  of_error : Exception → OutputSummary V
  of_output : Summary V → OutputSummary V

pub record ToolCallLog (V : Type 0) : Type 0 where
  pub session_id : ℕ
  pub iteration_id : ℕ
  pub tool_name : Text
  pub tool_input : Summary V
  pub tool_output_summary : OutputSummary V
  pub status : CallStatus

pub record ToolInvocationResult (V : Type 0) : Type 0 where
  pub status : CallStatus
  pub tool_call_id : ℕ
  pub output : Option (Payload V)
  pub denial_reason : Option Reason
  pub error : Option Exception

-- The keys of a dict are distinct, so an update of the key's entries is the assignment.
abbrev pub redact_key : {V : Type 0} → V → Text → Payload V → Payload V
redact_key mark key p = update (λ e. same_text e.0 key) (λ e. (e.0, mark)) p

unfoldable pub redact : {V : Type 0} → V → List Text → Payload V → Payload V
redact mark [] p = p
redact mark (key ∷ keys) p = redact mark keys (redact_key mark key p)

module _ (env : Environment) where
  open env use {V, S, is_nested, redacted, json_len, redis}

  -- _summarize_payload
  unfoldable pub summarize : Payload V → Bool → List Text → Summary V
  unfolding redact
  summarize payload allow_persist redacted_fields =
      if allow_persist
      then persisted (redact redacted redacted_fields payload)
      else counts (length payload) (json_len payload) (any (λ e. is_nested e.1) payload)

  pub record Machine : Type 0 where
    pub cache : redis.State
    pub log : List (ToolCallLog V)
    pub surroundings : S

  abbrev pub checker : S → Checker
  checker s = record {
    redis = redis;
    ttl = env.ttl;
    database = env.database s;
    now = env.now s;
    meanwhile = env.meanwhile s;
  }

  -- PolicyGuard.authorize on the machine.
  unfoldable pub authorized : ToolSpec V → ToolContext → Machine → Verdict × Machine
  authorized spec ctx m =
      let (v, cache') = authorize (checker m.surroundings) spec ctx m.cache in
      (v, record m { cache = cache' })

  -- ToolCallLogService.create
  abbrev pub create : ToolCallLog V → Machine → Machine
  create row m = record m { log = m.log ++ row ∷ [] }

  pub record Call : Type 0 where
    pub session_id : ℕ
    pub iteration_id : ℕ
    pub tool_name : Text
    pub tool_input : Payload V

  abbrev pub row_of : Call → ToolSpec V → OutputSummary V → CallStatus → ToolCallLog V
  row_of call spec output status = record {
    session_id = call.session_id;
    iteration_id = call.iteration_id;
    tool_name = call.tool_name;
    tool_input =
        summarize call.tool_input spec.sensitivity.allow_persist_input
          spec.sensitivity.redacted_input_fields;
    tool_output_summary = output;
    status = status;
  }

  -- The `try` with its handler, on what the registry returned.
  unfoldable pub record_reply :
      Call
      → ToolSpec V
      → Bool
      → Outcome (Payload V)
      → Machine
      → Outcome (ToolInvocationResult V) × Machine
  unfolding summarize
  record_reply call spec swallow (ok output) m =
      let safe_output =
        summarize output spec.sensitivity.allow_persist_output
          spec.sensitivity.redacted_output_fields in
      (
        ok (record {
          status = success;
          tool_call_id = length m.log;
          output = some output;
          denial_reason = none;
          error = none;
        }),
        create (row_of call spec (of_output safe_output) success) m,
      )
  record_reply call spec swallow (raise e) m = (
    (if swallow
        then ok (record {
          status = failed;
          tool_call_id = length m.log;
          output = none;
          denial_reason = none;
          error = some e;
        })
        else raise e),
    create (row_of call spec (of_error e) failed) m,
  )

  unfoldable pub after_verdict :
      ToolRegistry V S
      → Call
      → ToolSpec V
      → Bool
      → Verdict
      → Machine
      → Outcome (ToolInvocationResult V) × Machine
  unfolding record_reply
  after_verdict tools call spec swallow (refused r) m = (
    ok (record {
      status = denied;
      tool_call_id = length m.log;
      output = none;
      denial_reason = some r;
      error = none;
    }),
    create (row_of call spec (of_denial r) denied) m,
  )
  after_verdict tools call spec swallow allowed m =
      let (reply, s') = invoke_tool tools call.tool_name call.tool_input m.surroundings in
      record_reply call spec swallow reply (record m { surroundings = s' })

  -- ToolInvoker.invoke
  unfoldable pub invoke :
      ToolRegistry V S
      → Call
      → ToolContext
      → Bool
      → Machine
      → Outcome (ToolInvocationResult V) × Machine
  unfolding after_verdict authorized
  invoke tools call ctx swallow m = elim (get_spec call.tool_name tools) [
    | raise e ↦ (raise e, m)
    | ok spec ↦ let (v, m') = authorized spec ctx m in after_verdict tools call spec swallow v m'
  ]
