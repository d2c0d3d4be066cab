-- ===== src/Cognition/Termination.antt =====
-- How a run of backend/app/services/cognitive_loop/orchestrator.py ends.
use ninai.Base.{
  List, Option, Outcome, Text, none, ok, raise, refl, some, suc, true, zero, ℕ, ◌+◌, ◌≡◌,
}
use ninai.Cognition.Executor.{ExecutorOutput, execute}
use ninai.Cognition.Guard.{ToolContext}
use ninai.Cognition.Invoker.{Environment}
use ninai.Cognition.LoopRule.{State}
use ninai.Cognition.Orchestrator.{
  Agents, CognitiveIteration, Evaluation, SessionStatus, after_round, criticised, evidence_limit,
  existing_or_created, fail, failed, found_cards, is_finished, needs_evidence, on_surroundings,
  pass, planned, retry, round, round_on, rounds, succeeded, work,
}
use ninai.Cognition.Patch.{PlannerOutput, apply_safe_simulation_patch}
use ninai.Cognition.Registry.{ToolRegistry}

module _ (env : Environment) (agents : Agents env) where
  -- The evidence search, the planner and the critic return, and do not raise.
  pub record NeverRaises : Type 0 where
    pub finds :
        (goal : Text) (most : ℕ) (s : env.S)
        → (cards : List agents.Card) × ((agents.retrieve_evidence goal most s).0 ≡ ok cards)
    pub plans :
        (goal : Text) (cards : List agents.Card) (available : List Text) (s : env.S)
        → (p : PlannerOutput env.V) × ((agents.plan goal cards available s).0 ≡ ok p)
    pub judges :
        (goal : Text) (p : PlannerOutput env.V) (x : ExecutorOutput) (cards : List agents.Card)
        (simulation : agents.Simulation) (s : env.S)
        → (v : Evaluation) × ((agents.critique goal p x cards simulation s).0 ≡ ok v)

module _ (env : Environment) (agents : Agents env) (tools : ToolRegistry env.V env.S)
    (available : List Text) (recommended : Option ℕ) (ctx : ToolContext)
    (good : NeverRaises env agents) where
  abbrev Returns : {A B : Type 0} → Outcome A × B → Type 0
  Returns {A} r = (a : A) × (r.0 ≡ ok a)

  criticised-Returns :
      (iid : ℕ) (x : ExecutorOutput) (st : State env agents tools available recommended ctx)
      (o : Outcome Evaluation × env.S)
      → Returns o
      → Returns (criticised env agents tools available recommended ctx iid x st o)
  unfolding criticised
  criticised-Returns iid x st (ok v, s) r = (v, refl)
  criticised-Returns iid x st (raise e, s) (v, h) = cc

  planned-Returns :
      (sid num iid : ℕ) (goal : Text) (cards : List agents.Card)
      (st : State env agents tools available recommended ctx)
      (o : Outcome (PlannerOutput env.V) × env.S)
      → Returns o
      → Returns (planned env agents tools available recommended ctx sid num iid goal cards st o)
  unfolding planned
  planned-Returns sid num iid goal cards st (ok plan, s) r =
      let simulation = agents.simulate_plan plan cards in
      let s' = agents.report sid num plan simulation s in
      let st' : State env agents tools available recommended ctx =
        on_surroundings env agents tools available recommended ctx s' st in
      let plan' = apply_safe_simulation_patch available plan (agents.patch_of simulation) in
      let out = execute env tools ctx sid iid plan'.steps st'.machine in
      let st'' : State env agents tools available recommended ctx = record st' {
        machine = out.1;
      } in
      criticised-Returns iid out.0 st''
        (agents.critique goal plan' out.0 cards simulation out.1.surroundings)
        (good.judges goal plan' out.0 cards simulation out.1.surroundings)
  planned-Returns sid num iid goal cards st (raise e, s) (v, h) = cc

  found_cards-Returns :
      (sid num iid : ℕ) (goal : Text) (st : State env agents tools available recommended ctx)
      (o : Outcome (List agents.Card) × env.S)
      → Returns o
      → Returns (found_cards env agents tools available recommended ctx sid num iid goal st o)
  unfolding found_cards
  found_cards-Returns sid num iid goal st (ok cards, s) r =
      planned-Returns sid num iid goal cards
        (on_surroundings env agents tools available recommended ctx s st) _
        (good.plans goal cards available s)
  found_cards-Returns sid num iid goal st (raise e, s) (v, h) = cc

  work-Returns :
      (sid num iid : ℕ) (goal : Text) (st : State env agents tools available recommended ctx)
      → Returns (work env agents tools available recommended ctx sid num iid goal st)
  unfolding work
  work-Returns sid num iid goal st =
      found_cards-Returns sid num iid goal st _ (good.finds goal (evidence_limit recommended) _)

  round_on-Returns :
      (sid num : ℕ) (goal : Text) (existing : Option CognitiveIteration)
      (before : Option Evaluation) (st : State env agents tools available recommended ctx)
      → Returns
          (round_on env agents tools available recommended ctx sid num goal existing before st)
  unfolding round_on
  round_on-Returns sid num goal existing (some v) st = (v, refl)
  round_on-Returns sid num goal existing none st =
      let (i, st') =
        existing_or_created env agents tools available recommended ctx sid num existing st in
      work-Returns sid num i.id goal st'

  abbrev pub Finishes : {B : Type 0} → Outcome SessionStatus × B → Type 0
  Finishes r = (s : SessionStatus) × (r.0 ≡ ok s) × (is_finished s ≡ true)

  after_round-Finishes :
      (o : Outcome Evaluation) (st : State env agents tools available recommended ctx)
      (more : Outcome SessionStatus × State env agents tools available recommended ctx)
      → ((v : Evaluation) × (o ≡ ok v))
      → Finishes more
      → Finishes (after_round env agents tools available recommended ctx o st more)
  unfolding after_round
  after_round-Finishes (raise e) st more (v, h) f = cc
  after_round-Finishes (ok pass) st more r f = (succeeded, refl, refl)
  after_round-Finishes (ok fail) st more r f = (failed, refl, refl)
  after_round-Finishes (ok retry) st more r f = f
  after_round-Finishes (ok needs_evidence) st more r f = f

  round-Returns :
      (sid num : ℕ) (goal : Text) (st : State env agents tools available recommended ctx)
      → Returns (round env agents tools available recommended ctx sid num goal st)
  unfolding round
  round-Returns sid num goal st = round_on-Returns sid num goal _ _ st

  pub rounds-Finishes :
      (left sid num : ℕ) (goal : Text) (st : State env agents tools available recommended ctx)
      → Finishes (rounds env agents tools available recommended ctx left sid num goal st)
  unfolding rounds
  rounds-Finishes zero sid num goal st = (failed, refl, refl)
  rounds-Finishes (suc left) sid num goal st =
      let (o, st') = round env agents tools available recommended ctx sid num goal st in
      let more = rounds env agents tools available recommended ctx left sid (num + 1) goal st' in
      after_round-Finishes o st' more (round-Returns sid num goal st)
        (rounds-Finishes left sid (num + 1) goal st')
