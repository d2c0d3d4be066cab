-- ===== src/Cognition/Tests.antt =====
-- Runs of the cognitive loop, for code of backend/app/services/cognitive_loop and
-- backend/app/services/cognitive_tooling.
use ninai.Base.{
  All, List, Outcome, Text, [], false, inl, inr, is_space, map, none, not, ok, refl, select, some,
  suc, true, zero, ℕ, ◌++◌, ◌+◌, ◌↔◌, ◌∷◌, ◌≡◌,
}
use ninai.Cognition.Authorization.{Admits, AllCovered, authorize_iff}
use ninai.Cognition.Ending.{run-Ends}
use ninai.Cognition.Executor.{PlannerStep, all_succeeded, execute, execute_step, execute_steps}
use ninai.Cognition.Guard.{ToolContext, allowed, authorize, check_all, policy}
use ninai.Cognition.Invoker.{
  Call, Environment, Machine, ToolCallLog, ToolInvocationResult, checker, invoke, summarize,
}
use ninai.Cognition.Logging.{Outcomes, invoke-Outcomes}
use ninai.Cognition.Orchestrator.{
  Agents, CognitiveSession, Evaluation, LoopState, SessionStatus, existing_or_created,
  finalize_iteration, get_session, is_finished, needs_evidence, pass, round, rounds, run, running,
  succeeded, work,
}
use ninai.Cognition.Patch.{PlanPatch, PlannerOutput, apply_safe_simulation_patch}
use ninai.Cognition.Patches.{AreAddable, patch-AreAddable}
use ninai.Cognition.Redaction.{summarize-eq}
use ninai.Cognition.Registry.{ToolHandler, ToolRegistry, ToolSpec, get_spec, invoke_tool}
use ninai.Cognition.SafeRuns.{IsLicensed, run-IsLicensed}
use ninai.Cognition.Steps.{answer_of, asked_of, execute-reports}
use ninai.Cognition.Termination.{NeverRaises}
use ninai.Permissions.{
  Database, cache_key, check_permission, decision_on, get_effective_permissions,
  load_permissions_from_db, mem_text,
}
use ninai.Permissions.Memory.{memory}

abbrev ann : Text
ann = 65 ∷ []

abbrev acme : Text
acme = 66 ∷ []

-- "m:r" and "m:*"
abbrev read_memory : Text
read_memory = 109 ∷ 58 ∷ 114 ∷ []

abbrev company : Database
company = record {
  roles = record { id = 1 ∷ []; permissions = (109 ∷ 58 ∷ 42 ∷ []) ∷ [] } ∷ [];
  user_roles =
      record { user_id = ann; role_id = 1 ∷ []; organization_id = acme; expires_at = none } ∷ [];
}

-- The surroundings count the calls of the tool; a value is a number, and 99 is the redacted one.
abbrev office : Environment
office = record {
  V = ℕ;
  is_nested = λ v. false;
  redacted = 99;
  json_len = λ p. none;
  redis = memory;
  ttl = none;
  S = ℕ;
  database = λ s i. company;
  now = λ s i. 10;
  meanwhile = λ s i cache. cache;
}

abbrev find_name : Text
find_name = 102 ∷ []

abbrev secret_name : Text
secret_name = 115 ∷ []

abbrev password : Text
password = 112 ∷ []

abbrev find_spec : ToolSpec ℕ
find_spec = record {
  name = find_name;
  required_permissions = read_memory ∷ [];
  input_schema = none;
  output_schema = none;
  allowed_scopes = none;
  require_justification = false;
  min_clearance_level = 1;
  sensitivity = record {
    allow_persist_input = true;
    allow_persist_output = false;
    redacted_input_fields = password ∷ [];
    redacted_output_fields = [];
  };
}

abbrev secret_spec : ToolSpec ℕ
secret_spec = record find_spec { name = secret_name; min_clearance_level = 3 }

abbrev echo : ToolHandler ℕ ℕ
echo p s = (ok (some p), s + 1)

abbrev shop : ToolRegistry ℕ ℕ
shop =
    record { key = find_name; spec = find_spec; handler = echo }
    ∷ record { key = secret_name; spec = secret_spec; handler = echo }
    ∷ []

abbrev user_context : ToolContext
user_context = record {
  user_id = ann;
  org_id = acme;
  scope = none;
  classification = none;
  clearance_level = 1;
  justification = none;
  self_model = [];
}

abbrev idle : Machine office
idle = record { cache = []; log = []; surroundings = 0 }

abbrev find_call : Call office
find_call = record {
  session_id = 1;
  iteration_id = 0;
  tool_name = find_name;
  tool_input = (password, 7) ∷ [];
}

abbrev first_run : Outcome (ToolInvocationResult ℕ) × Machine office
first_run = invoke office shop find_call user_context true idle

ran_once : first_run.1.surroundings ≡ 1
unfolding invoke get_spec authorize policy check_all invoke_tool check_permission
    get_effective_permissions cache_key load_permissions_from_db decision_on
ran_once = refl

not_for_the_secret :
    (invoke office shop
      (record find_call { tool_name = secret_name })
      user_context
      true
      idle).1.surroundings
    ≡ 0
unfolding invoke get_spec authorize policy
not_for_the_secret = refl

known : get_spec find_name shop ≡ ok find_spec
unfolding get_spec
known = refl

invoke-Outcomes_example :
    Outcomes office shop find_call find_spec true
      (authorize (checker office 0) find_spec user_context []).0
      idle
      first_run.1
      first_run.0
invoke-Outcomes_example =
    invoke-Outcomes office shop find_call user_context find_spec true idle known

authorize_iff_example : ((authorize (checker office 0) find_spec user_context []).0 ≡ allowed) ↔ (
    Admits find_spec user_context × AllCovered (checker office 0) ann acme 0 (read_memory ∷ []) [])
authorize_iff_example = authorize_iff (checker office 0) find_spec user_context []

summarize-eq_example :
    summarize office ((password, 7) ∷ (find_name, 1) ∷ []) true (password ∷ [])
    ≡ summarize office ((password, 8) ∷ (find_name, 1) ∷ []) true (password ∷ [])
summarize-eq_example =
    summarize-eq office (password ∷ []) ((password, 7) ∷ (find_name, 1) ∷ [])
      ((password, 8) ∷ (find_name, 1) ∷ []) ((refl, inr refl, (refl, inl refl, tt)))

abbrev find_step : PlannerStep ℕ
find_step = record { step_id = 49 ∷ []; tool = some find_name; tool_input_hint = [] }

abbrev secret_step : PlannerStep ℕ
secret_step = record { step_id = 50 ∷ []; tool = some secret_name; tool_input_hint = [] }

abbrev plan_steps : List (PlannerStep ℕ)
plan_steps = find_step ∷ secret_step ∷ []

execute-reports_example :
    (map
        (answer_of office shop user_context)
        (execute office shop user_context 1 0 plan_steps idle).0.step_results
      ≡ map (asked_of office shop user_context) plan_steps)
    × (((execute office shop user_context 1 0 plan_steps idle).0.errors ≡ [])
        ↔ ((execute office shop user_context 1 0 plan_steps idle).0.overall_status ≡ all_succeeded))
execute-reports_example = execute-reports office shop user_context 1 0 plan_steps idle

abbrev first_plan : PlannerOutput ℕ
first_plan = record { required_tools = []; steps = plan_steps }

-- The patch drops the second step and adds one with a tool that is not available, and one without.
abbrev patch : PlanPatch ℕ
patch = record {
  remove_steps = (50 ∷ []) ∷ [];
  add_steps =
      record { step_id = 51 ∷ []; tool = some (120 ∷ []); tool_input_hint = [] }
      ∷ record { step_id = 32 ∷ 52 ∷ []; tool = none; tool_input_hint = [] }
      ∷ [];
}

patch-AreAddable_example :
    (added : List (PlannerStep ℕ)) × ((apply_safe_simulation_patch
        (find_name ∷ [])
        first_plan
        patch).steps
      ≡ select (λ s. not (mem_text s.step_id patch.remove_steps)) first_plan.steps ++ added)
    × AreAddable
        (find_name ∷ [])
        (map
          (λ s. s.step_id)
          (select (λ s. not (mem_text s.step_id patch.remove_steps)) plan_steps))
        added
patch-AreAddable_example = patch-AreAddable (find_name ∷ []) first_plan patch

-- The critic wants evidence until the tool has run twice.
abbrev verdict_after : ℕ → Evaluation
verdict_after zero = needs_evidence
verdict_after (suc zero) = needs_evidence
verdict_after (suc (suc n)) = pass

abbrev team : Agents office
team = record {
  Card = ℕ;
  Simulation = Unit {0};
  retrieve_evidence = λ goal n s. (ok [], s);
  plan = λ goal cards available s. (ok first_plan, s);
  simulate_plan = λ p cards. tt;
  patch_of = λ s. patch;
  report = λ sid num p x s. s;
  critique = λ goal p x cards y s. (ok (verdict_after s), s);
}

team_returns : NeverRaises office team
team_returns = record {
  finds = λ goal n s. ([], refl);
  plans = λ goal cards available s. (first_plan, refl);
  judges = λ goal p x cards y s. (verdict_after s, refl);
}

abbrev session : CognitiveSession
session = record { id = 1; status = running; goal = 103 ∷ [] }

abbrev begin : LoopState office team shop (find_name ∷ []) none user_context
begin = record { machine = idle; sessions = session ∷ []; iterations = [] }

abbrev end : Outcome SessionStatus × LoopState office team shop (find_name ∷ []) none user_context
end = run office team shop (find_name ∷ []) none user_context 3 1 begin

run-IsLicensed_example :
    (new : List (ToolCallLog ℕ)) × (end.1.machine.log ≡ [] ++ new)
    × All (IsLicensed office shop user_context) new
run-IsLicensed_example =
    run-IsLicensed office team shop (find_name ∷ []) none user_context 3 1 begin

run-Ends_example :
    (sess' : CognitiveSession) × (end.0 ≡ ok sess'.status)
    × (is_finished sess'.status ≡ true)
    × (get_session office team shop (find_name ∷ []) none user_context 1 end.1 ≡ some sess')
    × ((again : ℕ)
        → run office team shop (find_name ∷ []) none user_context again 1 end.1
          ≡ (ok sess'.status, end.1))
run-Ends_example =
    run-Ends office team shop (find_name ∷ []) none user_context 3 1 begin session team_returns refl

two_rounds : (end.1.machine.surroundings ≡ 2) × (end.0 ≡ ok succeeded)
unfolding run rounds round work finalize_iteration existing_or_created execute execute_step
    execute_steps invoke get_spec authorize policy check_all invoke_tool check_permission
    get_effective_permissions cache_key load_permissions_from_db decision_on
    apply_safe_simulation_patch is_space
two_rounds = (refl, refl)
