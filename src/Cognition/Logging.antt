-- ===== src/Cognition/Logging.antt =====
-- The log rows of `ToolInvoker.invoke` (backend/app/services/cognitive_tooling/tool_invoker.py).
use ninai.Base.{
  Bool, Exception, Outcome, [], ap, false, ok, raise, refl, some, true, ◌++◌, ◌∷◌, ◌≡◌,
}
use ninai.Cognition.Guard.{Reason, ToolContext, Verdict, allowed, authorize, refused}
use ninai.Cognition.Invoker.{
  Call, CallStatus, Environment, Machine, OutputSummary, ToolCallLog, ToolInvocationResult,
  after_verdict, authorized, checker, create, denied, failed, invoke, record_reply, row_of, success,
  summarize,
}
use ninai.Cognition.Registry.{Payload, ToolRegistry, ToolSpec, get_spec, invoke_tool}

module _ (env : Environment) (tools : ToolRegistry env.V env.S) (call : Call env) where
  open env use {V}

  -- The log has one more row, for this call, with its input as the tool's sensitivity lets it be
  -- kept.
  pub record Logs (spec : ToolSpec V) (status : CallStatus) (m m' : Machine env) : Type 0 where
    pub row : ToolCallLog V
    pub appended : m'.log ≡ m.log ++ row ∷ []
    pub names : row.tool_name ≡ call.tool_name
    pub has_status : row.status ≡ status
    pub input :
        row.tool_input
        ≡ summarize env call.tool_input spec.sensitivity.allow_persist_input
            spec.sensitivity.redacted_input_fields

  abbrev run_tool : Machine env → Outcome (Payload V) × env.S
  run_tool m = invoke_tool tools call.tool_name call.tool_input m.surroundings

  -- What an invocation comes to, by the guard's verdict and what the tool did.
  pub data Outcomes (spec : ToolSpec V) (swallow : Bool) (v : Verdict) (m m' : Machine env)
      (o : Outcome (ToolInvocationResult V)) : Type 0 where
    turned_down :
        (r : Reason) (result : ToolInvocationResult V)
        → v ≡ refused r
        → Logs spec denied m m'
        → m'.surroundings ≡ m.surroundings
        → o ≡ ok result
        → result.status ≡ denied
        → result.denial_reason ≡ some r
        → Outcomes spec swallow v m m' o
    ran :
        (output : Payload V) (result : ToolInvocationResult V)
        → v ≡ allowed
        → run_tool m ≡ (ok output, m'.surroundings)
        → Logs spec success m m'
        → o ≡ ok result
        → result.status ≡ success
        → result.output ≡ some output
        → Outcomes spec swallow v m m' o
    swallowed :
        (e : Exception) (result : ToolInvocationResult V)
        → v ≡ allowed
        → swallow ≡ true
        → run_tool m ≡ (raise e, m'.surroundings)
        → Logs spec failed m m'
        → o ≡ ok result
        → result.status ≡ failed
        → result.error ≡ some e
        → Outcomes spec swallow v m m' o
    raised :
        (e : Exception)
        → v ≡ allowed
        → swallow ≡ false
        → run_tool m ≡ (raise e, m'.surroundings)
        → Logs spec failed m m'
        → o ≡ raise e
        → Outcomes spec swallow v m m' o

  abbrev logged :
      (spec : ToolSpec V) (status : CallStatus) (output : OutputSummary V) (m m1 : Machine env)
      → m1.log ≡ m.log
      → Logs spec status m (create env (row_of env call spec output status) m1)
  logged spec status output m m1 e = record {
    row = row_of env call spec output status;
    appended = ap (λ l. l ++ row_of env call spec output status ∷ []) e;
    names = refl;
    has_status = refl;
    input = refl;
  }

  replied :
      (spec : ToolSpec V) (swallow : Bool) (m : Machine env) (cache' : env.redis.State)
      (reply : Outcome (Payload V)) (s' : env.S)
      → run_tool m ≡ (reply, s')
      → Outcomes spec swallow allowed m
          (record_reply env call spec swallow reply
            (record m { cache = cache'; surroundings = s' })).1
          (record_reply env call spec swallow reply
            (record m { cache = cache'; surroundings = s' })).0
  unfolding record_reply
  replied spec swallow m cache' (ok output) s' e =
      Outcomes.ran output _ refl e (logged spec success _ m _ refl) refl refl refl
  replied spec true m cache' (raise x) s' e =
      Outcomes.swallowed x _ refl refl e (logged spec failed _ m _ refl) refl refl refl
  replied spec false m cache' (raise x) s' e =
      Outcomes.raised x refl refl e (logged spec failed _ m _ refl) refl

  after_verdict-Outcomes :
      (spec : ToolSpec V) (swallow : Bool) (v : Verdict) (m : Machine env)
      (cache' : env.redis.State)
      → Outcomes spec swallow v m
          (after_verdict env tools call spec swallow v (record m { cache = cache' })).1
          (after_verdict env tools call spec swallow v (record m { cache = cache' })).0
  unfolding after_verdict
  after_verdict-Outcomes spec swallow (refused r) m cache' =
      Outcomes.turned_down r _ refl (logged spec denied _ m _ refl) refl refl refl refl
  after_verdict-Outcomes spec swallow allowed m cache' =
      replied spec swallow m cache' (run_tool m).0 (run_tool m).1 refl

  -- A call of a registered tool adds exactly one row to the log. If the guard refuses, the row and
  -- the result say so and nothing else has changed but the permission cache; if it allows, the tool
  -- has run once, and the row and the result say whether it succeeded or failed, or the tool's
  -- exception comes out where it is not swallowed.
  pub invoke-Outcomes :
      (ctx : ToolContext) (spec : ToolSpec V) (swallow : Bool) (m : Machine env)
      → get_spec call.tool_name tools ≡ ok spec
      → Outcomes spec swallow
          (authorize (checker env m.surroundings) spec ctx m.cache).0
          m
          (invoke env tools call ctx swallow m).1
          (invoke env tools call ctx swallow m).0
  unfolding invoke authorized
  invoke-Outcomes ctx spec swallow m e =
      rw (e, invoke)
        (after_verdict-Outcomes spec swallow
          (authorize (checker env m.surroundings) spec ctx m.cache).0 m
          (authorize (checker env m.surroundings) spec ctx m.cache).1)
