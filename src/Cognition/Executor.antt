-- ===== src/Cognition/Executor.antt =====
-- backend/app/services/cognitive_loop/executor_agent.py. The texts of a plan and of a step's
-- summary are left out; an error message is the tool with its denial or exception.
use ninai.Base.{
  Bool, Exception, List, Option, Outcome, Text, [], any, false, if◌then◌else◌, none, ok, raise,
  some, true, ℕ, ◌++◌, ◌∷◌,
}
use ninai.Cognition.Guard.{Reason, ToolContext}
use ninai.Cognition.Invoker.{
  Call, CallStatus, Environment, Machine, ToolInvocationResult, denied, failed, invoke, success,
}
use ninai.Cognition.Registry.{Payload, ToolRegistry}

pub record PlannerStep (V : Type 0) : Type 0 where
  pub step_id : Text
  pub tool : Option Text
  pub tool_input_hint : Payload V

pub data StepStatus : Type 0 where
  skipped : StepStatus
  called : CallStatus → StepStatus

pub record ExecutorStepResult : Type 0 where
  pub step_id : Text
  pub status : StepStatus
  pub tool_name : Option Text
  pub tool_call_id : Option ℕ

pub data StepError : Type 0 where
  denial : Text → Reason → StepError
  failure : Text → Exception → StepError

pub data OverallStatus : Type 0 where
  all_succeeded partly_denied some_failed : OverallStatus

pub record ExecutorOutput : Type 0 where
  pub step_results : List ExecutorStepResult
  pub overall_status : OverallStatus
  pub errors : List StepError

abbrev pub is_failed : StepStatus → Bool
is_failed (called failed) = true
is_failed (called success) = false
is_failed (called denied) = false
is_failed skipped = false

abbrev pub is_denied : StepStatus → Bool
is_denied (called denied) = true
is_denied (called success) = false
is_denied (called failed) = false
is_denied skipped = false

-- _compute_overall_status
unfoldable pub compute_overall_status : List ExecutorStepResult → OverallStatus
compute_overall_status rs =
    if any (λ r. is_failed r.status) rs
    then some_failed
    else if any (λ r. is_denied r.status) rs
    then partly_denied
    else all_succeeded

denial_error : Text → Option Reason → List StepError
denial_error tool none = []
denial_error tool (some r) = denial tool r ∷ []

failure_error : Text → Option Exception → List StepError
failure_error tool none = []
failure_error tool (some e) = failure tool e ∷ []

unfoldable pub error_of : Text → CallStatus → Option Reason → Option Exception → List StepError
unfolding denial_error failure_error
error_of tool success r e = []
error_of tool denied r e = denial_error tool r
error_of tool failed r e = failure_error tool e

module _ (env : Environment) (tools : ToolRegistry env.V env.S) (ctx : ToolContext) where
  open env use {V}

  -- The result of one step, and the errors it adds.
  unfoldable pub step_result :
      Text → Text → Outcome (ToolInvocationResult V) → ExecutorStepResult × List StepError
  unfolding error_of
  step_result step_id tool (raise e) = (
    record {
      step_id = step_id;
      status = called failed;
      tool_name = some tool;
      tool_call_id = none;
    },
    failure tool e ∷ [],
  )
  step_result step_id tool (ok r) = (
    record {
      step_id = step_id;
      status = called r.status;
      tool_name = some tool;
      tool_call_id = some r.tool_call_id;
    },
    error_of tool r.status r.denial_reason r.error,
  )

  unfoldable pub skipped_step :
      PlannerStep V → Machine env → (ExecutorStepResult × List StepError) × Machine env
  skipped_step step m = (
    (
      record { step_id = step.step_id; status = skipped; tool_name = none; tool_call_id = none },
      [],
    ),
    m,
  )

  -- `if not tool_name` takes the empty name for none.
  unfoldable pub step_tool :
      ℕ
      → ℕ
      → Option Text
      → PlannerStep V
      → Machine env
      → (ExecutorStepResult × List StepError) × Machine env
  unfolding skipped_step step_result
  step_tool session_id iteration_id none step m = skipped_step step m
  step_tool session_id iteration_id (some []) step m = skipped_step step m
  step_tool session_id iteration_id (some (c ∷ cs)) step m =
      let call : Call env = record {
        session_id = session_id;
        iteration_id = iteration_id;
        tool_name = c ∷ cs;
        tool_input = step.tool_input_hint;
      } in
      let (r, m') = invoke env tools call ctx true m in (step_result step.step_id (c ∷ cs) r, m')

  unfoldable pub execute_step :
      ℕ → ℕ → PlannerStep V → Machine env → (ExecutorStepResult × List StepError) × Machine env
  unfolding step_tool
  execute_step session_id iteration_id step m = step_tool session_id iteration_id step.tool step m

  unfoldable pub execute_steps :
      ℕ
      → ℕ
      → List (PlannerStep V)
      → Machine env
      → (List ExecutorStepResult × List StepError) × Machine env
  execute_steps session_id iteration_id [] m = (([], []), m)
  execute_steps session_id iteration_id (step ∷ steps) m =
      let (r, m') = execute_step session_id iteration_id step m in
      let (rs, m'') = execute_steps session_id iteration_id steps m' in
      ((r.0 ∷ rs.0, r.1 ++ rs.1), m'')

  -- ExecutorAgent.execute
  unfoldable pub execute : ℕ → ℕ → List (PlannerStep V) → Machine env → ExecutorOutput × Machine env
  unfolding execute_steps compute_overall_status
  execute session_id iteration_id steps m =
      let (rs, m') = execute_steps session_id iteration_id steps m in
      (
        record { step_results = rs.0; overall_status = compute_overall_status rs.0; errors = rs.1 },
        m',
      )
