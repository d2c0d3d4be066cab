-- ===== src/Cognition/Orchestrator.antt =====
-- backend/app/services/cognitive_loop/orchestrator.py over the rows of
-- backend/app/services/cognitive_loop/repository.py. The agents, the evidence search and the
-- simulator are the parameter `Agents`; ids of new rows are their positions.
use ninai.Base.{
  Bool, List, Option, Outcome, Text, [], false, find?, if◌then◌else◌, length, max, min, none, ok,
  raise, same_text, some, strip, suc, true, update, value_error, zero, ℕ, ◌&&◌, ◌*◌, ◌++◌, ◌+◌,
  ◌==◌, ◌∷◌,
}
use ninai.Cognition.Executor.{ExecutorOutput, execute}
use ninai.Cognition.Guard.{ToolContext}
use ninai.Cognition.Invoker.{Environment, Machine}
use ninai.Cognition.Patch.{PlanPatch, PlannerOutput, apply_safe_simulation_patch}
use ninai.Cognition.Registry.{ToolRegistry}

pub data Evaluation : Type 0 where
  pass fail retry needs_evidence : Evaluation

pub data SessionStatus : Type 0 where
  running succeeded failed aborted : SessionStatus

pub record CognitiveSession : Type 0 where
  pub id : ℕ
  pub status : SessionStatus
  pub goal : Text

-- `critiqued` is whether critique_json is not empty.
pub record CognitiveIteration : Type 0 where
  pub id : ℕ
  pub session_id : ℕ
  pub iteration_num : ℕ
  pub execution : Option ExecutorOutput
  pub critiqued : Bool
  pub evaluation : Evaluation

pub record Agents (env : Environment) : Type 1 where
  pub Card : Type 0
  pub Simulation : Type 0
  pub retrieve_evidence : Text → ℕ → env.S → Outcome (List Card) × env.S
  pub plan : Text → List Card → List Text → env.S → Outcome (PlannerOutput env.V) × env.S
  pub simulate_plan : PlannerOutput env.V → List Card → Simulation
  pub patch_of : Simulation → PlanPatch env.V
  pub report : ℕ → ℕ → PlannerOutput env.V → Simulation → env.S → env.S
  pub critique :
      Text
      → PlannerOutput env.V
      → ExecutorOutput
      → List Card
      → Simulation
      → env.S
      → Outcome Evaluation × env.S

-- `recommended_evidence_multiplier`, brought between 1 and 3, times 10.
multiplier : Option ℕ → ℕ
multiplier none = 1
multiplier (some k) = max 1 (min 3 k)

unfoldable pub evidence_limit : Option ℕ → ℕ
unfolding multiplier
evidence_limit recommended = max 1 (min 30 (10 * multiplier recommended))

abbrev pub is_finished : SessionStatus → Bool
is_finished running = false
is_finished succeeded = true
is_finished failed = true
is_finished aborted = true

module _ (env : Environment) (agents : Agents env) (tools : ToolRegistry env.V env.S)
    (available : List Text) (recommended : Option ℕ) (ctx : ToolContext) where
  open env use {V, S}

  pub record LoopState : Type 0 where
    pub machine : Machine env
    pub sessions : List CognitiveSession
    pub iterations : List CognitiveIteration

  abbrev pub on_surroundings : S → LoopState → LoopState
  on_surroundings s st = record st { machine = record st.machine { surroundings = s } }

  -- CognitiveLoopRepository
  abbrev pub get_session : ℕ → LoopState → Option CognitiveSession
  get_session session_id st = find? (λ s. s.id == session_id) st.sessions

  abbrev pub save_session_status : ℕ → SessionStatus → LoopState → LoopState
  save_session_status session_id status st = record st {
    sessions = update (λ s. s.id == session_id) (λ s. record s { status = status }) st.sessions;
  }

  abbrev pub get_iteration : ℕ → ℕ → LoopState → Option CognitiveIteration
  get_iteration session_id num st =
      find? (λ i. i.session_id == session_id && i.iteration_num == num) st.iterations

  abbrev pub new_iteration : ℕ → ℕ → LoopState → CognitiveIteration
  new_iteration session_id num st = record {
    id = length st.iterations;
    session_id = session_id;
    iteration_num = num;
    execution = none;
    critiqued = false;
    evaluation = retry;
  }

  -- `existing or await self.repo.create_iteration(...)`
  unfoldable pub existing_or_created :
      ℕ → ℕ → Option CognitiveIteration → LoopState → CognitiveIteration × LoopState
  existing_or_created session_id num (some i) st = (i, st)
  existing_or_created session_id num none st =
      let i = new_iteration session_id num st in
      (i, record st { iterations = st.iterations ++ i ∷ [] })

  unfoldable pub finalize_iteration : ℕ → ExecutorOutput → Evaluation → LoopState → LoopState
  finalize_iteration iteration_id execution evaluation st = record st {
    iterations =
        update (λ i. i.id == iteration_id)
          (λ i. record i { execution = some execution; critiqued = true; evaluation = evaluation })
          st.iterations;
  }

  unfoldable pub criticised :
      ℕ → ExecutorOutput → LoopState → Outcome Evaluation × S → Outcome Evaluation × LoopState
  unfolding finalize_iteration
  criticised iteration_id execution st (raise e, s) = (raise e, on_surroundings s st)
  criticised iteration_id execution st (ok v, s) =
      (ok v, finalize_iteration iteration_id execution v (on_surroundings s st))

  unfoldable pub planned :
      ℕ
      → ℕ
      → ℕ
      → Text
      → List agents.Card
      → LoopState
      → Outcome (PlannerOutput V) × S
      → Outcome Evaluation × LoopState
  unfolding criticised
  planned session_id num iteration_id goal cards st (raise e, s) = (raise e, on_surroundings s st)
  planned session_id num iteration_id goal cards st (ok plan, s) =
      let simulation = agents.simulate_plan plan cards in
      let st' = on_surroundings (agents.report session_id num plan simulation s) st in
      let plan' = apply_safe_simulation_patch available plan (agents.patch_of simulation) in
      let (execution, m) = execute env tools ctx session_id iteration_id plan'.steps st'.machine in
      let st'' = record st' { machine = m } in
      criticised iteration_id execution st''
        (agents.critique goal plan' execution cards simulation m.surroundings)

  unfoldable pub found_cards :
      ℕ → ℕ → ℕ → Text → LoopState → Outcome (List agents.Card) × S → Outcome Evaluation × LoopState
  unfolding planned
  found_cards session_id num iteration_id goal st (raise e, s) = (raise e, on_surroundings s st)
  found_cards session_id num iteration_id goal st (ok cards, s) =
      planned session_id num iteration_id goal cards (on_surroundings s st)
        (agents.plan goal cards available s)

  -- The body of the loop from the evidence to `finalize_iteration`.
  unfoldable pub work : ℕ → ℕ → ℕ → Text → LoopState → Outcome Evaluation × LoopState
  unfolding found_cards evidence_limit
  work session_id num iteration_id goal st =
      found_cards session_id num iteration_id goal st
        (agents.retrieve_evidence goal (evidence_limit recommended) st.machine.surroundings)

  abbrev pub finished_before : Option CognitiveIteration → Option Evaluation
  finished_before none = none
  finished_before (some i) = if i.critiqued then some i.evaluation else none

  -- A finished iteration is read, any other is worked on.
  unfoldable pub round_on :
      ℕ
      → ℕ
      → Text
      → Option CognitiveIteration
      → Option Evaluation
      → LoopState
      → Outcome Evaluation × LoopState
  unfolding work existing_or_created
  round_on session_id num goal existing (some v) st = (ok v, st)
  round_on session_id num goal existing none st =
      let (i, st') = existing_or_created session_id num existing st in
      work session_id num i.id goal st'

  unfoldable pub round : ℕ → ℕ → Text → LoopState → Outcome Evaluation × LoopState
  unfolding round_on
  round session_id num goal st =
      let existing = get_iteration session_id num st in
      round_on session_id num goal existing (finished_before existing) st

  -- `more` is the rest of the loop.
  unfoldable pub after_round :
      Outcome Evaluation
      → LoopState
      → Outcome SessionStatus × LoopState
      → Outcome SessionStatus × LoopState
  after_round (raise e) st more = (raise e, st)
  after_round (ok pass) st more = (ok succeeded, st)
  after_round (ok fail) st more = (ok failed, st)
  after_round (ok retry) st more = more
  after_round (ok needs_evidence) st more = more

  -- `for iteration_num in range(1, max_iterations + 1)`, with the rounds left.
  unfoldable pub rounds : ℕ → ℕ → ℕ → Text → LoopState → Outcome SessionStatus × LoopState
  unfolding after_round
  rounds zero session_id num goal st = (ok failed, st)
  rounds (suc left) session_id num goal st =
      let (o, st') = round session_id num goal st in
      let more = rounds left session_id (num + 1) goal st' in after_round o st' more

  unfoldable pub saved : ℕ → Outcome SessionStatus × LoopState → Outcome SessionStatus × LoopState
  saved session_id (raise e, st) = (raise e, st)
  saved session_id (ok status, st) = (ok status, save_session_status session_id status st)

  unfoldable pub run_session :
      ℕ → ℕ → Option CognitiveSession → LoopState → Outcome SessionStatus × LoopState
  unfolding saved rounds
  run_session max_iterations session_id none st = (raise value_error, st)
  run_session max_iterations session_id (some sess) st =
      if is_finished sess.status
      then (ok sess.status, st)
      else let goal = strip sess.goal in
        if same_text goal []
        then (
          ok failed,
          save_session_status session_id failed (save_session_status session_id running st),
        )
        else saved session_id
            (rounds max_iterations session_id 1 goal (save_session_status session_id running st))

  -- LoopOrchestrator.run
  unfoldable pub run : ℕ → ℕ → LoopState → Outcome SessionStatus × LoopState
  unfolding run_session
  run max_iterations session_id st =
      run_session max_iterations session_id (get_session session_id st) st
