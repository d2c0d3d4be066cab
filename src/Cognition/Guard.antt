-- ===== src/Cognition/Guard.antt =====
-- backend/app/services/cognitive_tooling/policy_guard.py over `check_permission`. The texts of the
-- reasons are a data type; a success rate, a float in the source, is a fraction.
use mathlib.Core.Option
use ninai.Base.{
  Bool, List, Option, Text, [], false, find?, if◌then◌else◌, leb, ltb, none, not, same_text, some,
  strip, true, ℕ, ◌&&◌, ◌*◌, ◌+◌, ◌||◌, ◌∷◌,
}
use ninai.Cognition.Registry.{ToolSpec}
use ninai.Permissions.{Database, Redis, check_permission, mem_text}

-- `tool_reliability[name]` of the self model, as far as it is readable as numbers.
pub record ToolStats : Type 0 where
  pub tool : Text
  pub success_rate_30d : Option (ℕ × ℕ)
  pub sample_size_30d : Option ℕ

pub record ToolContext : Type 0 where
  pub user_id : Text
  pub org_id : Text
  pub scope : Option Text
  pub classification : Option Text
  pub clearance_level : ℕ
  pub justification : Option Text
  pub self_model : List ToolStats

pub data Reason : Type 0 where
  missing_justification insufficient_clearance scope_not_allowed unknown_classification : Reason
  missing_permission : Text → Reason

pub data Verdict : Type 0 where
  allowed : Verdict
  refused : Reason → Verdict

-- `n >= 3 and rate < 0.80`, multiplied out.
unreliable_rate : Option (ℕ × ℕ) → Option ℕ → Bool
unreliable_rate none n = false
unreliable_rate (some (num, den)) none = false
unreliable_rate (some (num, den)) (some n) = leb 3 n && ltb (num * 100) (den * 80)

unreliable : Option ToolStats → Bool
unfolding unreliable_rate
unreliable none = false
unreliable (some s) = unreliable_rate s.success_rate_30d s.sample_size_30d

unfoldable pub is_unreliable : Text → ToolContext → Bool
unfolding unreliable
is_unreliable name ctx = unreliable (find? (λ s. same_text s.tool name) ctx.self_model)

-- `(ctx.justification or "").strip()` is empty.
unfoldable pub is_blank : Option Text → Bool
is_blank none = true
is_blank (some s) = same_text (strip s) []

-- "public", "internal", "confidential", "restricted"
abbrev pub classifications : List Text
classifications =
    (112 ∷ 117 ∷ 98 ∷ 108 ∷ 105 ∷ 99 ∷ [])
    ∷ (105 ∷ 110 ∷ 116 ∷ 101 ∷ 114 ∷ 110 ∷ 97 ∷ 108 ∷ [])
    ∷ (99 ∷ 111 ∷ 110 ∷ 102 ∷ 105 ∷ 100 ∷ 101 ∷ 110 ∷ 116 ∷ 105 ∷ 97 ∷ 108 ∷ [])
    ∷ (114 ∷ 101 ∷ 115 ∷ 116 ∷ 114 ∷ 105 ∷ 99 ∷ 116 ∷ 101 ∷ 100 ∷ [])
    ∷ []

unfoldable pub scope_allowed : Option (List Text) → Option Text → Bool
scope_allowed none scope = true
scope_allowed (some scopes) scope = mem_text (Option.get_or scope []) scopes

unfoldable pub classification_known : Option Text → Bool
classification_known none = true
classification_known (some []) = true
classification_known (some (c ∷ cs)) = mem_text (c ∷ cs) classifications

-- The checks of `authorize` before the permissions, in their order.
unfoldable pub policy : {V : Type 0} → ToolSpec V → ToolContext → Verdict
unfolding is_unreliable is_blank scope_allowed classification_known
policy tool ctx =
    if (tool.require_justification || is_unreliable tool.name ctx) && is_blank ctx.justification
    then refused missing_justification
    else if ltb ctx.clearance_level tool.min_clearance_level
    then refused insufficient_clearance
    else if not (scope_allowed tool.allowed_scopes ctx.scope)
    then refused scope_not_allowed
    else if not (classification_known ctx.classification)
    then refused unknown_classification
    else allowed

-- What the guard's PermissionChecker reads: the cache, its time to live, and, for the check with
-- each number, the database and the clock then and what others do to the cache before it.
pub record Checker : Type 1 where
  pub redis : Redis
  pub ttl : Option ℕ
  pub database : ℕ → Database
  pub now : ℕ → ℕ
  pub meanwhile : ℕ → redis.State → redis.State

module _ (c : Checker) where
  -- The loop over `tool.required_permissions`; `i` is the number of the next check.
  unfoldable pub check_all : Text → Text → ℕ → List Text → c.redis.State → Verdict × c.redis.State
  check_all user_id org_id i [] s = (allowed, s)
  check_all user_id org_id i (p ∷ ps) s =
      let (d, s') =
        check_permission c.redis c.ttl (c.database i) (c.now i) user_id org_id p
          (c.meanwhile i s) in
      let rest = check_all user_id org_id (i + 1) ps s' in
      if d.allowed then rest else (refused (missing_permission p), s')

  unfoldable pub authorize_policy :
      {V : Type 0} → Verdict → ToolSpec V → ToolContext → c.redis.State → Verdict × c.redis.State
  authorize_policy (refused r) tool ctx s = (refused r, s)
  authorize_policy allowed tool ctx s =
      check_all ctx.user_id ctx.org_id 0 tool.required_permissions s

  -- PolicyGuard.authorize
  unfoldable pub authorize :
      {V : Type 0} → ToolSpec V → ToolContext → c.redis.State → Verdict × c.redis.State
  unfolding authorize_policy
  authorize tool ctx s = authorize_policy (policy tool ctx) tool ctx s
