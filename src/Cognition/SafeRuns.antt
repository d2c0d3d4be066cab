-- ===== src/Cognition/SafeRuns.antt =====
-- The tools that a whole run of the loop may have run (backend/app/services/cognitive_loop).
use mathlib.Core.List.{append-nil, append_assoc}
use ninai.Base.{
  All, Bool, Bool-cases, Exception, List, Option, Outcome, Text, [], ap, append-All, inl, inr, none,
  ok, raise, refl, same_text, some, strip, sym, true, ℕ, ◌++◌, ◌∙◌, ◌∷◌, ◌≡◌, ◌⊎◌,
}
use ninai.Cognition.Authorization.{Admits, authorize_iff}
use ninai.Cognition.Executor.{PlannerStep, execute, execute_step, execute_steps, step_tool}
use ninai.Cognition.Guard.{ToolContext, allowed, authorize}
use ninai.Cognition.Invoker.{
  Call, CallStatus, Environment, Machine, ToolCallLog, ToolInvocationResult, checker, denied,
  failed, invoke, success,
}
use ninai.Cognition.Logging.{Logs, Outcomes, invoke-Outcomes}
use ninai.Cognition.LoopRule.{IsKept, rounds-IsKept}
use ninai.Cognition.Orchestrator.{
  Agents, CognitiveSession, LoopState, SessionStatus, is_finished, rounds, run, run_session,
  running, save_session_status, saved,
}
use ninai.Cognition.Registry.{ToolRegistry, ToolSpec, get_spec}
use ninai.Cognition.Steps.{spec-cases}

module _ (env : Environment) (tools : ToolRegistry env.V env.S) (ctx : ToolContext) where
  open env use {V}

  -- A row that the guard has refused, or that is of a registered tool whose policy admits the
  -- context.
  abbrev pub IsLicensed : ToolCallLog V → Type 0
  IsLicensed row =
      (row.status ≡ denied)
      ⊎ ((spec : ToolSpec V) × (get_spec row.tool_name tools ≡ ok spec) × Admits spec ctx)

  -- From one machine to the next, the log has grown by licensed rows.
  abbrev pub Grows : List (ToolCallLog V) → List (ToolCallLog V) → Type 0
  Grows before after = (new : List (ToolCallLog V)) × (after ≡ before ++ new) × All IsLicensed new

  Grows-refl : (l : List (ToolCallLog V)) → Grows l l
  Grows-refl l = ([], sym (append-nil l), tt)

  Grows-trans : (a b c : List (ToolCallLog V)) → Grows a b → Grows b c → Grows a c
  Grows-trans a b c (x, e, p) (y, f, q) =
      (x ++ y, f ∙ ap (λ l. l ++ y) e ∙ append_assoc a x y, append-All IsLicensed x y p q)

  Grows-Logs :
      (call : Call env) (spec : ToolSpec V) (status : CallStatus) (m m' : Machine env)
      → Logs env tools call spec status m m'
      → ((row : ToolCallLog V)
          → row.tool_name ≡ call.tool_name
          → row.status ≡ status
          → IsLicensed row)
      → Grows m.log m'.log
  Grows-Logs call spec status m m' l k =
      (l.row ∷ [], l.appended, (k l.row l.names l.has_status, tt))

  refused-Grows :
      (call : Call env) (spec : ToolSpec V) (m m' : Machine env)
      → Logs env tools call spec denied m m'
      → Grows m.log m'.log
  refused-Grows call spec m m' l = Grows-Logs call spec denied m m' l (λ row n s. inl s)

  allowed-Grows :
      (call : Call env) (spec : ToolSpec V) (status : CallStatus) (m m' : Machine env)
      → get_spec call.tool_name tools ≡ ok spec
      → (authorize (checker env m.surroundings) spec ctx m.cache).0 ≡ allowed
      → Logs env tools call spec status m m'
      → Grows m.log m'.log
  allowed-Grows call spec status m m' known v l = Grows-Logs call spec status m m' l (λ row n s.
      inr (
        spec,
        ap (λ x. get_spec x tools) n ∙ known,
        ((authorize_iff (checker env m.surroundings) spec ctx m.cache).0 v).0,
      ))

  outcome-Grows :
      (call : Call env) (spec : ToolSpec V) (swallow : Bool) (m m' : Machine env)
      (o : Outcome (ToolInvocationResult V))
      → get_spec call.tool_name tools ≡ ok spec
      → Outcomes env tools call spec swallow
          (authorize (checker env m.surroundings) spec ctx m.cache).0
          m
          m'
          o
      → Grows m.log m'.log
  outcome-Grows call spec w m m' o known (Outcomes.turned_down r result v l _ _ _ _) =
      refused-Grows call spec m m' l
  outcome-Grows call spec w m m' o known (Outcomes.ran x result v _ l _ _ _) =
      allowed-Grows call spec success m m' known v l
  outcome-Grows call spec w m m' o known (Outcomes.swallowed x result v _ _ l _ _ _) =
      allowed-Grows call spec failed m m' known v l
  outcome-Grows call spec w m m' o known (Outcomes.raised x v _ _ l _) =
      allowed-Grows call spec failed m m' known v l

  unknown_unchanged :
      (call : Call env) (swallow : Bool) (m : Machine env) (x : Exception)
      → get_spec call.tool_name tools ≡ raise x
      → (invoke env tools call ctx swallow m).1 ≡ m
  unfolding invoke
  unknown_unchanged call swallow m x e = rw (e, invoke) refl

  invoke-Grows :
      (call : Call env) (swallow : Bool) (m : Machine env)
      → Grows m.log (invoke env tools call ctx swallow m).1.log
  invoke-Grows call swallow m = elim (spec-cases (get_spec call.tool_name tools)) [
    | inl (spec, e) ↦
        outcome-Grows call spec swallow m _ _ e
          (invoke-Outcomes env tools call ctx spec swallow m e)
    | inr (x, e) ↦ rw (unknown_unchanged call swallow m x e) (Grows-refl m.log)
  ]

  tool-Grows :
      (sid iid : ℕ) (t : Option Text) (step : PlannerStep V) (m : Machine env)
      → Grows m.log (step_tool env tools ctx sid iid t step m).1.log
  unfolding step_tool
  tool-Grows sid iid none step m = Grows-refl m.log
  tool-Grows sid iid (some []) step m = Grows-refl m.log
  tool-Grows sid iid (some (c ∷ cs)) step m = invoke-Grows _ true m

  steps-Grows :
      (sid iid : ℕ) (steps : List (PlannerStep V)) (m : Machine env)
      → Grows m.log (execute_steps env tools ctx sid iid steps m).1.log
  unfolding execute_steps execute_step
  steps-Grows sid iid [] m = Grows-refl m.log
  steps-Grows sid iid (s ∷ ss) m =
      let m' = (execute_step env tools ctx sid iid s m).1 in
      Grows-trans m.log m'.log _ (tool-Grows sid iid s.tool s m) (steps-Grows sid iid ss m')

  pub execute-Grows :
      (sid iid : ℕ) (steps : List (PlannerStep V)) (m : Machine env)
      → Grows m.log (execute env tools ctx sid iid steps m).1.log
  unfolding execute
  execute-Grows sid iid steps m = steps-Grows sid iid steps m

module _ (env : Environment) (agents : Agents env) (tools : ToolRegistry env.V env.S)
    (available : List Text) (recommended : Option ℕ) (ctx : ToolContext) where
  abbrev LogGrows :
      LoopState env agents tools available recommended ctx
      → LoopState env agents tools available recommended ctx
      → Type 0
  LogGrows st st' = Grows env tools ctx st.machine.log st'.machine.log

  LogGrows-IsKept : IsKept env agents tools available recommended ctx LogGrows
  LogGrows-IsKept = record {
    same = λ st. Grows-refl env tools ctx st.machine.log;
    then_on = λ a b c. Grows-trans env tools ctx a.machine.log b.machine.log c.machine.log;
    surroundings_changed = λ s st. Grows-refl env tools ctx st.machine.log;
    iterations_changed = λ l st. Grows-refl env tools ctx st.machine.log;
    executed = λ sid iid steps st. execute-Grows env tools ctx sid iid steps st.machine;
  }

  saved-LogGrows :
      (sid : ℕ) (st : LoopState env agents tools available recommended ctx)
      (o : Outcome SessionStatus) (st' : LoopState env agents tools available recommended ctx)
      → LogGrows st st'
      → LogGrows st (saved env agents tools available recommended ctx sid (o, st')).1
  unfolding saved
  saved-LogGrows sid st (ok s) st' g = g
  saved-LogGrows sid st (raise e) st' g = g

  session-LogGrows :
      (n sid : ℕ) (found : Option CognitiveSession)
      (st : LoopState env agents tools available recommended ctx)
      → LogGrows st (run_session env agents tools available recommended ctx n sid found st).1
  unfolding run_session
  session-LogGrows n sid none st = Grows-refl env tools ctx st.machine.log
  session-LogGrows n sid (some sess) st = elim (Bool-cases (is_finished sess.status)) [
    | inl e ↦ rw e (Grows-refl env tools ctx st.machine.log)
    | inr e ↦ rw e (elim (Bool-cases (same_text (strip sess.goal) [])) [
      | inl b ↦ rw b (Grows-refl env tools ctx st.machine.log)
      | inr b ↦
          let st' = save_session_status env agents tools available recommended ctx sid running st in
          let (o, st'') =
            rounds env agents tools available recommended ctx n sid 1 (strip sess.goal) st' in
          rw b (
            saved-LogGrows sid st o st'' (
              rounds-IsKept env agents tools available recommended ctx LogGrows LogGrows-IsKept n
                sid 1 (strip sess.goal) st'))
    ])
  ]

  -- A run of the loop, finished or broken off by an exception, only adds rows to the log of tool
  -- calls, and each of them is of a refused call or of a registered tool that the user's clearance,
  -- scope, classification and justification admit: whatever the planner, the simulation's patch
  -- and the critic say, and whatever the handlers do.
  pub run-IsLicensed :
      (max_iterations session_id : ℕ) (st : LoopState env agents tools available recommended ctx)
      → (new : List (ToolCallLog env.V)) × ((run env agents tools available recommended ctx
            max_iterations session_id st).1.machine.log
          ≡ st.machine.log ++ new)
        × All (IsLicensed env tools ctx) new
  unfolding run
  run-IsLicensed n sid st = session-LogGrows n sid _ st
