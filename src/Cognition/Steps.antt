-- ===== src/Cognition/Steps.antt =====
-- The results and the errors of a plan's steps
-- (backend/app/services/cognitive_loop/executor_agent.py).
use ninai.Base.{
  Bool, Exception, List, Option, Outcome, Text, [], all, any, ap, arith, false, if◌then◌else◌, inl,
  inr, map, none, not, ok, raise, refl, some, sym, true, ℕ, ◌&&◌, ◌++◌, ◌||◌, ◌↔◌, ◌∙◌, ◌∷◌, ◌≡◌,
  ◌⊎◌,
}
use ninai.Cognition.Executor.{
  ExecutorStepResult, PlannerStep, StepError, StepStatus, all_succeeded, compute_overall_status,
  error_of, execute, execute_step, execute_steps, is_denied, is_failed, partly_denied, some_failed,
  step_result, step_tool,
}
use ninai.Cognition.Guard.{ToolContext, Verdict}
use ninai.Cognition.Invoker.{Call, Environment, Machine, ToolInvocationResult, invoke}
use ninai.Cognition.Logging.{Outcomes, invoke-Outcomes}
use ninai.Cognition.Registry.{ToolRegistry, ToolSpec, get_spec}

cons_eq : {A : Type 0} {x y : A} {xs ys : List A} → x ≡ y → xs ≡ ys → x ∷ xs ≡ y ∷ ys
cons_eq e d = cc

pub spec-cases :
    {A : Type 0} (o : Outcome A) → ((a : A) × (o ≡ ok a)) ⊎ ((x : Exception) × (o ≡ raise x))
spec-cases (ok a) = inl (a, refl)
spec-cases (raise x) = inr (x, refl)

module _ (env : Environment) (tools : ToolRegistry env.V env.S) (ctx : ToolContext) where
  open env use {V}

  -- The tool that a step calls: the empty name is none.
  abbrev pub called_tool : Option Text → Option Text
  called_tool none = none
  called_tool (some []) = none
  called_tool (some (c ∷ cs)) = some (c ∷ cs)

  abbrev pub answer_of : ExecutorStepResult → Text × Option Text
  answer_of r = (r.step_id, r.tool_name)

  abbrev pub asked_of : PlannerStep V → Text × Option Text
  asked_of s = (s.step_id, called_tool s.tool)

  result-answer :
      (step_id tool : Text) (o : Outcome (ToolInvocationResult V))
      → answer_of (step_result env tools ctx step_id tool o).0 ≡ (step_id, some tool)
  unfolding step_result
  result-answer step_id tool (ok r) = refl
  result-answer step_id tool (raise e) = refl

  tool-answer :
      (sid iid : ℕ) (t : Option Text) (step : PlannerStep V) (m : Machine env)
      → answer_of (step_tool env tools ctx sid iid t step m).0.0 ≡ (step.step_id, called_tool t)
  unfolding step_tool
  tool-answer sid iid none step m = refl
  tool-answer sid iid (some []) step m = refl
  tool-answer sid iid (some (c ∷ cs)) step m = result-answer step.step_id (c ∷ cs) _

  step-answer :
      (sid iid : ℕ) (s : PlannerStep V) (m : Machine env)
      → answer_of (execute_step env tools ctx sid iid s m).0.0 ≡ (s.step_id, called_tool s.tool)
  unfolding execute_step
  step-answer sid iid s m = tool-answer sid iid s.tool s m

  steps-answers :
      (sid iid : ℕ) (steps : List (PlannerStep V)) (m : Machine env)
      → map answer_of (execute_steps env tools ctx sid iid steps m).0.0 ≡ map asked_of steps
  unfolding execute_steps
  steps-answers sid iid [] m = refl
  steps-answers sid iid (s ∷ ss) m =
      cons_eq (step-answer sid iid s m)
        (steps-answers sid iid ss (execute_step env tools ctx sid iid s m).1)

  -- No error and no status that makes one.
  abbrev is_quiet : List StepError → Bool
  is_quiet [] = true
  is_quiet (e ∷ es) = false

  abbrev is_fine : StepStatus → Bool
  is_fine s = not (is_failed s || is_denied s)

  abbrev Quiet : ExecutorStepResult × List StepError → Type 0
  Quiet r = is_quiet r.1 ≡ is_fine r.0.status

  result-Quiet :
      (step_id tool : Text) (call : Call env) (spec : ToolSpec V) (v : Verdict) (m m' : Machine env)
      (o : Outcome (ToolInvocationResult V))
      → Outcomes env tools call spec true v m m' o
      → Quiet (step_result env tools ctx step_id tool o)
  unfolding step_result error_of
  result-Quiet step_id tool call spec v m m' o (Outcomes.turned_down r result _ _ _ e s d) =
      rw e (rw s (rw d refl))
  result-Quiet step_id tool call spec v m m' o (Outcomes.ran output result _ _ _ e s d) =
      rw e (rw s refl)
  result-Quiet step_id tool call spec v m m' o (Outcomes.swallowed x result _ _ _ _ e s d) =
      rw e (rw s (rw d refl))
  result-Quiet step_id tool call spec v m m' o (Outcomes.raised x _ no' _ _ e) = cc

  unknown-Quiet :
      (step_id tool : Text) (call : Call env) (x : Exception) (m : Machine env)
      → get_spec call.tool_name tools ≡ raise x
      → Quiet (step_result env tools ctx step_id tool (invoke env tools call ctx true m).0)
  unfolding invoke step_result
  unknown-Quiet step_id tool call x m e = rw (e, invoke) refl

  invoke-Quiet :
      (step_id tool : Text) (call : Call env) (m : Machine env)
      → Quiet (step_result env tools ctx step_id tool (invoke env tools call ctx true m).0)
  invoke-Quiet step_id tool call m = elim (spec-cases (get_spec call.tool_name tools)) [
    | inl (spec, e) ↦
        result-Quiet step_id tool call spec _ m _ _
          (invoke-Outcomes env tools call ctx spec true m e)
    | inr (x, e) ↦ unknown-Quiet step_id tool call x m e
  ]

  tool-Quiet :
      (sid iid : ℕ) (t : Option Text) (step : PlannerStep V) (m : Machine env)
      → Quiet (step_tool env tools ctx sid iid t step m).0
  unfolding step_tool
  tool-Quiet sid iid none step m = refl
  tool-Quiet sid iid (some []) step m = refl
  tool-Quiet sid iid (some (c ∷ cs)) step m = invoke-Quiet step.step_id (c ∷ cs) _ m

  quiet-append : (xs ys : List StepError) → is_quiet (xs ++ ys) ≡ (is_quiet xs && is_quiet ys)
  quiet-append [] ys = refl
  quiet-append (x ∷ xs) ys = refl

  abbrev all_fine : List ExecutorStepResult → Bool
  all_fine rs = all (λ r. is_fine r.status) rs

  step-Quiet :
      (sid iid : ℕ) (s : PlannerStep V) (m : Machine env)
      → Quiet (execute_step env tools ctx sid iid s m).0
  unfolding execute_step
  step-Quiet sid iid s m = tool-Quiet sid iid s.tool s m

  steps-quiet :
      (sid iid : ℕ) (steps : List (PlannerStep V)) (m : Machine env)
      → is_quiet (execute_steps env tools ctx sid iid steps m).0.1
        ≡ all_fine (execute_steps env tools ctx sid iid steps m).0.0
  unfolding execute_steps
  steps-quiet sid iid [] m = refl
  steps-quiet sid iid (s ∷ ss) m =
      let (r, m') = execute_step env tools ctx sid iid s m in
      let (rs, m'') = execute_steps env tools ctx sid iid ss m' in
      quiet-append r.1 rs.1
      ∙ ap (λ b. b && is_quiet rs.1) (step-Quiet sid iid s m)
      ∙ ap (λ b. is_fine r.0.status && b) (steps-quiet sid iid ss m')

  fine-statuses :
      (rs : List ExecutorStepResult)
      → all_fine rs ≡ not (any (λ r. is_failed r.status) rs || any (λ r. is_denied r.status) rs)
  fine-statuses [] = refl
  fine-statuses (r ∷ rs) =
      ap (λ b. is_fine r.status && b) (fine-statuses rs)
      ∙ regroup (is_failed r.status) (is_denied r.status) (any (λ x. is_failed x.status) rs)
          (any (λ x. is_denied x.status) rs)
    where
      regroup : (a b c d : Bool) → (not (a || b) && not (c || d)) ≡ not ((a || c) || (b || d))
      regroup a b c d = ground arith

  overall-succeeded :
      (rs : List ExecutorStepResult)
      → (compute_overall_status rs ≡ all_succeeded) ↔ (all_fine rs ≡ true)
  unfolding compute_overall_status
  overall-succeeded rs =
      rw (fine-statuses rs)
        (both (any (λ x. is_failed x.status) rs) (any (λ x. is_denied x.status) rs))
    where
      both :
          (a b : Bool)
          → ((if a then some_failed else if b then partly_denied else all_succeeded)
              ≡ all_succeeded)
            ↔ (not (a || b) ≡ true)
      both true b = (λ h. cc, λ h. cc)
      both false true = (λ h. cc, λ h. cc)
      both false false = (λ h. refl, λ h. refl)

  quiet_iff : (es : List StepError) → (is_quiet es ≡ true) ↔ (es ≡ [])
  quiet_iff [] = (λ h. refl, λ h. refl)
  quiet_iff (e ∷ es) = (λ h. cc, λ h. cc)

  -- Executing a plan gives one result for each step, in the order of the plan and with the step's
  -- tool, whatever the tools do, and reports an error exactly when the overall status is not
  -- success.
  pub execute-reports :
      (session_id iteration_id : ℕ) (steps : List (PlannerStep V)) (m : Machine env)
      → (map
            (λ r. (r.step_id, r.tool_name))
            (execute env tools ctx session_id iteration_id steps m).0.step_results
          ≡ map asked_of steps)
        × (((execute env tools ctx session_id iteration_id steps m).0.errors ≡ []) ↔ (
            (execute env tools ctx session_id iteration_id steps m).0.overall_status
            ≡ all_succeeded))
  unfolding execute
  execute-reports sid iid steps m =
      let rs = (execute_steps env tools ctx sid iid steps m).0 in
      let q : is_quiet rs.1 ≡ all_fine rs.0 = steps-quiet sid iid steps m in
      (
        steps-answers sid iid steps m,
        (
          (λ h. (overall-succeeded rs.0).1 (sym q ∙ (quiet_iff rs.1).1 h)),
          (λ h. (quiet_iff rs.1).0 (q ∙ (overall-succeeded rs.0).0 h)),
        ),
      )
