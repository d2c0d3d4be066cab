-- ===== src/Cognition/LoopRule.antt =====
-- A rule for relations between the states that the loop of
-- backend/app/services/cognitive_loop/orchestrator.py passes through.
use ninai.Base.{
  List, Option, Outcome, Text, [], none, ok, raise, some, suc, zero, ℕ, ◌++◌, ◌+◌, ◌∷◌,
}
use ninai.Cognition.Executor.{ExecutorOutput, PlannerStep, execute}
use ninai.Cognition.Guard.{ToolContext}
use ninai.Cognition.Invoker.{Environment}
use ninai.Cognition.Orchestrator.{
  Agents, CognitiveIteration, Evaluation, LoopState, SessionStatus, after_round, criticised,
  evidence_limit, existing_or_created, fail, finalize_iteration, found_cards, needs_evidence,
  new_iteration, on_surroundings, pass, planned, retry, round, round_on, rounds, work,
}
use ninai.Cognition.Patch.{PlannerOutput, apply_safe_simulation_patch}
use ninai.Cognition.Registry.{ToolRegistry}

module _ (env : Environment) (agents : Agents env) (tools : ToolRegistry env.V env.S)
    (available : List Text) (recommended : Option ℕ) (ctx : ToolContext) where
  abbrev pub State : Type 0
  State = LoopState env agents tools available recommended ctx

  -- A relation that every change of the loop but that of a session's status respects.
  pub record IsKept (R : State → State → Type 0) : Type 0 where
    pub same : (st : State) → R st st
    pub then_on : (a b c : State) → R a b → R b c → R a c
    pub surroundings_changed :
        (s : env.S) (st : State)
        → R st (on_surroundings env agents tools available recommended ctx s st)
    pub iterations_changed :
        (l : List CognitiveIteration) (st : State) → R st (record st { iterations = l })
    pub executed :
        (sid iid : ℕ) (steps : List (PlannerStep env.V)) (st : State)
        → R st (record st { machine = (execute env tools ctx sid iid steps st.machine).1 })

  module _ (R : State → State → Type 0) (k : IsKept R) where
    criticised-IsKept :
        (iid : ℕ) (x : ExecutorOutput) (st : State) (o : Outcome Evaluation) (s : env.S)
        → R st (criticised env agents tools available recommended ctx iid x st (o, s)).1
    unfolding criticised finalize_iteration
    criticised-IsKept iid x st (raise e) s = k.surroundings_changed s st
    criticised-IsKept iid x st (ok v) s =
        let st' : State = on_surroundings env agents tools available recommended ctx s st in
        k.then_on st st' _ (k.surroundings_changed s st) (k.iterations_changed _ st')

    planned-IsKept :
        (sid num iid : ℕ) (goal : Text) (cards : List agents.Card) (st : State)
        (o : Outcome (PlannerOutput env.V)) (s : env.S)
        → R st
            (planned env agents tools available recommended ctx sid num iid goal cards st (o, s)).1
    unfolding planned
    planned-IsKept sid num iid goal cards st (raise e) s = k.surroundings_changed s st
    planned-IsKept sid num iid goal cards st (ok plan) s =
        let simulation = agents.simulate_plan plan cards in
        let s' = agents.report sid num plan simulation s in
        let st' : State = on_surroundings env agents tools available recommended ctx s' st in
        let plan' = apply_safe_simulation_patch available plan (agents.patch_of simulation) in
        let out = execute env tools ctx sid iid plan'.steps st'.machine in
        let st'' : State = record st' { machine = out.1 } in
        let (o, s'') = agents.critique goal plan' out.0 cards simulation out.1.surroundings in
        k.then_on st st' _ (k.surroundings_changed s' st) (
          k.then_on st' st'' _ (k.executed sid iid plan'.steps st')
            (criticised-IsKept iid out.0 st'' o s''))

    found_cards-IsKept :
        (sid num iid : ℕ) (goal : Text) (st : State) (o : Outcome (List agents.Card)) (s : env.S)
        → R st (found_cards env agents tools available recommended ctx sid num iid goal st (o, s)).1
    unfolding found_cards
    found_cards-IsKept sid num iid goal st (raise e) s = k.surroundings_changed s st
    found_cards-IsKept sid num iid goal st (ok cards) s =
        let st' : State = on_surroundings env agents tools available recommended ctx s st in
        let (o, s') = agents.plan goal cards available s in
        k.then_on st st' _ (k.surroundings_changed s st)
          (planned-IsKept sid num iid goal cards st' o s')

    work-IsKept :
        (sid num iid : ℕ) (goal : Text) (st : State)
        → R st (work env agents tools available recommended ctx sid num iid goal st).1
    unfolding work
    work-IsKept sid num iid goal st =
        let (o, s) =
          agents.retrieve_evidence goal (evidence_limit recommended) st.machine.surroundings in
        found_cards-IsKept sid num iid goal st o s

    round_on-IsKept :
        (sid num : ℕ) (goal : Text) (existing : Option CognitiveIteration)
        (before : Option Evaluation) (st : State)
        → R st
            (round_on env agents tools available recommended ctx sid num goal existing before st).1
    unfolding round_on existing_or_created
    round_on-IsKept sid num goal existing (some v) st = k.same st
    round_on-IsKept sid num goal (some i) none st = work-IsKept sid num i.id goal st
    round_on-IsKept sid num goal none none st =
        let i = new_iteration env agents tools available recommended ctx sid num st in
        let l = st.iterations ++ i ∷ [] in
        let st' : State = record st { iterations = l } in
        k.then_on st st' _ (k.iterations_changed l st) (work-IsKept sid num i.id goal st')

    round-IsKept :
        (sid num : ℕ) (goal : Text) (st : State)
        → R st (round env agents tools available recommended ctx sid num goal st).1
    unfolding round
    round-IsKept sid num goal st = round_on-IsKept sid num goal _ _ st

    after_round-IsKept :
        (o : Outcome Evaluation) (st st' : State) (more : Outcome SessionStatus × State)
        → R st st'
        → R st more.1
        → R st (after_round env agents tools available recommended ctx o st' more).1
    unfolding after_round
    after_round-IsKept (raise e) st st' more r m = r
    after_round-IsKept (ok pass) st st' more r m = r
    after_round-IsKept (ok fail) st st' more r m = r
    after_round-IsKept (ok retry) st st' more r m = m
    after_round-IsKept (ok needs_evidence) st st' more r m = m

    pub rounds-IsKept :
        (left sid num : ℕ) (goal : Text) (st : State)
        → R st (rounds env agents tools available recommended ctx left sid num goal st).1
    unfolding rounds
    rounds-IsKept zero sid num goal st = k.same st
    rounds-IsKept (suc left) sid num goal st =
        let (o, st') = round env agents tools available recommended ctx sid num goal st in
        let more = rounds env agents tools available recommended ctx left sid (num + 1) goal st' in
        let one = round-IsKept sid num goal st in
        after_round-IsKept o st st' more one
          (k.then_on st st' more.1 one (rounds-IsKept left sid (num + 1) goal st'))
