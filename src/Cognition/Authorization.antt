-- ===== src/Cognition/Authorization.antt =====
-- What the guard allows (backend/app/services/cognitive_tooling/policy_guard.py).
use ninai.Base.{
  Bool, List, Text, [], arith, false, if◌then◌else◌, refl, split, true, ℕ, ◌&&◌, ◌+◌, ◌||◌, ◌↔◌,
  ◌∷◌, ◌≡◌, ◌≤◌,
}
use ninai.Cognition.Guard.{
  Checker, ToolContext, Verdict, allowed, authorize, authorize_policy, check_all,
  classification_known, is_blank, is_unreliable, missing_permission, policy, refused, scope_allowed,
}
use ninai.Cognition.Registry.{ToolSpec}
use ninai.Permissions.{check_permission, colon, decision_on, get_effective_permissions, holds}
use ninai.Permissions.Segments.{Covers, check_permission-Covers}

-- The conditions of the policy, each on its own.
pub record Admits {V : Type 0} (tool : ToolSpec V) (ctx : ToolContext) : Type 0 where
  pub justified :
      ((tool.require_justification || is_unreliable tool.name ctx) && is_blank ctx.justification)
      ≡ false
  pub cleared : tool.min_clearance_level ≤ ctx.clearance_level
  pub scoped : scope_allowed tool.allowed_scopes ctx.scope ≡ true
  pub classified : classification_known ctx.classification ≡ true

pub Admits-of_policy :
    {V : Type 0} (tool : ToolSpec V) (ctx : ToolContext)
    → policy tool ctx ≡ allowed
    → Admits tool ctx
unfolding policy
Admits-of_policy tool ctx h = ground arith

pub policy-of_Admits :
    {V : Type 0} (tool : ToolSpec V) (ctx : ToolContext)
    → Admits tool ctx
    → policy tool ctx ≡ allowed
unfolding policy
policy-of_Admits tool ctx h = ground arith

module _ (c : Checker) where
  -- The permission `p` is covered by the list that the check number `i` reads.
  abbrev pub IsCovered : ℕ → Text → Text → Text → c.redis.State → Type 0
  IsCovered i u o p s =
      (g : Text) × (holds (get_effective_permissions c.redis c.ttl (c.database i) (c.now i) u o s).0
          g
        ≡ true)
      × Covers (split colon g) (split colon p)

  -- Each permission at its own check, on the cache as the check before and others left it.
  abbrev pub AllCovered : Text → Text → ℕ → List Text → c.redis.State → Type 0
  AllCovered u o i [] s = Unit
  AllCovered u o i (p ∷ ps) s =
      IsCovered i u o p (c.meanwhile i s)
      × AllCovered u o (i + 1) ps
          (get_effective_permissions c.redis c.ttl (c.database i) (c.now i) u o (c.meanwhile i s)).1

  -- One check and the rest of the loop.
  step :
      (d : Bool) (p : Text) (s : c.redis.State) (rest : Verdict × c.redis.State)
      → (if d then rest else (refused (missing_permission p), s)).0 ≡ allowed
      → (d ≡ true) × (rest.0 ≡ allowed)
  step true p s rest h = (refl, h)
  step false p s rest h = cc

  check_all-allowed :
      (u o : Text) (i : ℕ) (ps : List Text) (s : c.redis.State)
      → (check_all c u o i ps s).0 ≡ allowed
      → AllCovered u o i ps s
  unfolding check_all check_permission
  check_all-allowed u o i [] s h = tt
  check_all-allowed u o i (p ∷ ps) s h =
      let s1 = c.meanwhile i s in
      let (d, rest) =
        step
          (decision_on (get_effective_permissions c.redis c.ttl (c.database i) (c.now i) u o s1).0
            p).allowed
          p _ _ h in
      (
        (check_permission-Covers c.redis c.ttl (c.database i) (c.now i) u o p s1).0 d,
        check_all-allowed u o (i + 1) ps
            (get_effective_permissions c.redis c.ttl (c.database i) (c.now i) u o s1).1 rest,
      )

  allowed-check_all :
      (u o : Text) (i : ℕ) (ps : List Text) (s : c.redis.State)
      → AllCovered u o i ps s
      → (check_all c u o i ps s).0 ≡ allowed
  unfolding check_all check_permission
  allowed-check_all u o i [] s h = refl
  allowed-check_all u o i (p ∷ ps) s (h, hs) =
      let s1 = c.meanwhile i s in
      let d : (decision_on
            (get_effective_permissions c.redis c.ttl (c.database i) (c.now i) u o s1).0 p).allowed
          ≡ true =
        (check_permission-Covers c.redis c.ttl (c.database i) (c.now i) u o p s1).1 h in
      rw d (
        allowed-check_all u o (i + 1) ps
          (get_effective_permissions c.redis c.ttl (c.database i) (c.now i) u o s1).1 hs)

  permitted :
      {V : Type 0} (v : Verdict) (tool : ToolSpec V) (ctx : ToolContext) (s : c.redis.State)
      → (authorize_policy c v tool ctx s).0 ≡ allowed
      → (v ≡ allowed) × AllCovered ctx.user_id ctx.org_id 0 tool.required_permissions s
  unfolding authorize_policy
  permitted allowed tool ctx s h =
      (refl, check_all-allowed ctx.user_id ctx.org_id 0 tool.required_permissions s h)
  permitted (refused r) tool ctx s h = cc

  -- The guard allows a tool exactly when the justification is there where it is required, the
  -- clearance suffices, the scope is one of the tool's, the classification is a known one, and
  -- every required permission is covered, segment by segment, by the list that its own check reads:
  -- the checks come one after the other, and the cache, the database and the clock may change
  -- between them.
  pub authorize_iff :
      {V : Type 0} (tool : ToolSpec V) (ctx : ToolContext) (s : c.redis.State)
      → ((authorize c tool ctx s).0 ≡ allowed)
        ↔ (Admits tool ctx × AllCovered ctx.user_id ctx.org_id 0 tool.required_permissions s)
  unfolding authorize
  authorize_iff tool ctx s = (
    (λ h.
        let (e, held) = permitted (policy tool ctx) tool ctx s h in
        (Admits-of_policy tool ctx e, held)),
    (λ (a, held).
        rw (policy-of_Admits tool ctx a)
          (allowed-check_all ctx.user_id ctx.org_id 0 tool.required_permissions s held)),
  )
