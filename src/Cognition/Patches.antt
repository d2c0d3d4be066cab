-- ===== src/Cognition/Patches.antt =====
-- Plans after the simulation's patch (backend/app/services/cognitive_loop/orchestrator.py).
use ninai.Base.{
  Bool, Bool-cases, List, Text, [], false, inl, inr, map, not, refl, same_text, select, strip, true,
  ◌&&◌, ◌++◌, ◌∷◌, ◌≡◌,
}
use ninai.Cognition.Executor.{PlannerStep}
use ninai.Cognition.Patch.{
  PlanPatch, PlannerOutput, added_steps, apply_safe_simulation_patch, tool_allowed,
}
use ninai.Permissions.{mem_text}

fits_parts :
    (a b c : Bool) → (not a && (not b && c)) ≡ true → (a ≡ false) × (b ≡ false) × (c ≡ true)
fits_parts true b c h = cc
fits_parts false true c h = cc
fits_parts false false true h = (refl, refl, refl)
fits_parts false false false h = cc

module _ {V : Type 0} (available : List Text) where
  -- The identifiers of the steps are not empty and distinct, and none is one of `ids`; their tools
  -- are available.
  abbrev pub AreAddable : List Text → List (PlannerStep V) → Type 0
  AreAddable ids [] = Unit
  AreAddable ids (s ∷ ss) =
      (same_text s.step_id [] ≡ false)
      × (mem_text s.step_id ids ≡ false)
      × (tool_allowed available s.tool ≡ true)
      × AreAddable (s.step_id ∷ ids) ss

  abbrev fits : List Text → PlannerStep V → Bool
  fits ids s =
      not (same_text (strip s.step_id) [])
      && (not (mem_text (strip s.step_id) ids) && tool_allowed available s.tool)

  added_steps-AreAddable :
      (ids : List Text) (ss : List (PlannerStep V)) → AreAddable ids (added_steps available ids ss)
  unfolding added_steps
  added_steps-AreAddable ids [] = tt
  added_steps-AreAddable ids (s ∷ ss) = elim (Bool-cases (fits ids s)) [
    | inl e ↦
        let (a, b, c) = fits_parts _ _ _ e in
        rw e (a, b, c, added_steps-AreAddable (strip s.step_id ∷ ids) ss)
    | inr e ↦ rw e (added_steps-AreAddable ids ss)
  ]

  -- The patched plan is the plan's steps but those that the patch removes, in their order, and
  -- after them new steps, each with an identifier that is not empty and not in use and with a tool
  -- that is available, if any.
  pub patch-AreAddable :
      (plan : PlannerOutput V) (patch : PlanPatch V)
      → (added : List (PlannerStep V)) × ((apply_safe_simulation_patch available plan patch).steps
          ≡ select (λ s. not (mem_text s.step_id patch.remove_steps)) plan.steps ++ added)
        × AreAddable
            (map
              (λ s. s.step_id)
              (select (λ s. not (mem_text s.step_id patch.remove_steps)) plan.steps))
            added
  unfolding apply_safe_simulation_patch
  patch-AreAddable plan patch = (_, refl, added_steps-AreAddable _ patch.add_steps)
