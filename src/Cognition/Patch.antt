-- ===== src/Cognition/Patch.antt =====
-- The patch that the simulation recommends, as backend/app/services/cognitive_loop/orchestrator.py
-- applies it to a plan.
use ninai.Base.{
  Bool, List, Option, Text, [], if◌then◌else◌, map, none, not, same_text, select, some, strip, true,
  ◌&&◌, ◌++◌, ◌∷◌,
}
use ninai.Cognition.Executor.{PlannerStep}
use ninai.Permissions.{mem_text}

pub record PlannerOutput (V : Type 0) : Type 0 where
  pub required_tools : List Text
  pub steps : List (PlannerStep V)

-- SimulationRecommendedPlanPatch: a step to add is a planner's step.
pub record PlanPatch (V : Type 0) : Type 0 where
  pub remove_steps : List Text
  pub add_steps : List (PlannerStep V)

unfoldable pub tool_allowed : List Text → Option Text → Bool
tool_allowed available none = true
tool_allowed available (some t) = mem_text t available

require : List Text → List Text → Option Text → List Text
require available required none = required
require available required (some []) = required
require available required (some (c ∷ cs)) =
    if mem_text (c ∷ cs) available && not (mem_text (c ∷ cs) required)
    then required ++ (c ∷ cs) ∷ []
    else required

module _ {V : Type 0} where
  -- The loop over `add_steps`; `ids` is `existing_ids`, to which each new id is added.
  unfoldable pub added_steps : List Text → List Text → List (PlannerStep V) → List (PlannerStep V)
  unfolding tool_allowed
  added_steps available ids [] = []
  added_steps available ids (s ∷ ss) =
      let step_id = strip s.step_id in
      let fits =
        not (same_text step_id [])
        && (not (mem_text step_id ids) && tool_allowed available s.tool) in
      let rest = added_steps available (if fits then step_id ∷ ids else ids) ss in
      if fits then record s { step_id = step_id } ∷ rest else rest

  -- The loop that keeps `required_tools` consistent with the steps.
  unfoldable pub require_tools : List Text → List Text → List (PlannerStep V) → List Text
  unfolding require
  require_tools available required [] = required
  require_tools available required (s ∷ ss) =
      require_tools available (require available required s.tool) ss

  -- _apply_safe_simulation_patch
  unfoldable pub apply_safe_simulation_patch :
      List Text → PlannerOutput V → PlanPatch V → PlannerOutput V
  unfolding added_steps require_tools
  apply_safe_simulation_patch available plan patch =
      let kept = select (λ s. not (mem_text s.step_id patch.remove_steps)) plan.steps in
      let steps = kept ++ added_steps available (map (λ s. s.step_id) kept) patch.add_steps in
      record { required_tools = require_tools available plan.required_tools steps; steps = steps }
