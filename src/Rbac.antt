-- ===== src/Rbac.antt =====
-- backend/app/core/rbac.py: the capabilities of the roles, the checks over them, and the decorators
-- of the endpoints.
pub mod Roles
pub mod Guards
mod Tests
use ninai.Base.{
  Bool, List, Option, Outcome, String, [], all, any, false, http, if◌then◌else◌, none, not, raise,
  some, true, ◌∷◌,
}

-- The constants of Capabilities; a check may also be asked for any other string.
pub data Capability : Type 0 where
  pipelines_view pipelines_manage pipelines_admin : Capability
  queues_view queues_manage : Capability
  resources_view resources_manage : Capability
  alerts_view alerts_manage : Capability
  observability_view observability_manage : Capability
  dlq_view dlq_manage : Capability
  system_admin users_manage organizations_manage : Capability
  other_capability : String → Capability

-- The keys of ROLE_CAPABILITIES; `other_role` is any other string.
pub data Role : Type 0 where
  admin operator viewer user : Role
  other_role : String → Role

pub record User : Type 0 where
  pub role : Role

-- ROLE_CAPABILITIES
unfoldable pub role_capabilities : Role → List Capability
role_capabilities admin =
    pipelines_view ∷ pipelines_manage ∷ pipelines_admin ∷ queues_view ∷ queues_manage
    ∷ resources_view ∷ resources_manage ∷ alerts_view ∷ alerts_manage ∷ observability_view
    ∷ observability_manage ∷ dlq_view ∷ dlq_manage ∷ system_admin ∷ users_manage
    ∷ organizations_manage ∷ []
role_capabilities operator =
    pipelines_view ∷ pipelines_manage ∷ queues_view ∷ queues_manage ∷ resources_view ∷ alerts_view
    ∷ alerts_manage ∷ observability_view ∷ dlq_view ∷ dlq_manage ∷ []
role_capabilities viewer =
    pipelines_view ∷ queues_view ∷ resources_view ∷ alerts_view ∷ observability_view ∷ dlq_view ∷ []
role_capabilities user = pipelines_view ∷ []
role_capabilities (other_role s) = pipelines_view ∷ []

unfoldable pub get_user_capabilities : User → List Capability
unfolding role_capabilities
get_user_capabilities u = role_capabilities u.role

-- Equality with a constant; no list of a role holds another string.
abbrev pub same_capability : Capability → Capability → Bool
same_capability pipelines_view pipelines_view = true
same_capability pipelines_manage pipelines_manage = true
same_capability pipelines_admin pipelines_admin = true
same_capability queues_view queues_view = true
same_capability queues_manage queues_manage = true
same_capability resources_view resources_view = true
same_capability resources_manage resources_manage = true
same_capability alerts_view alerts_view = true
same_capability alerts_manage alerts_manage = true
same_capability observability_view observability_view = true
same_capability observability_manage observability_manage = true
same_capability dlq_view dlq_view = true
same_capability dlq_manage dlq_manage = true
same_capability system_admin system_admin = true
same_capability users_manage users_manage = true
same_capability organizations_manage organizations_manage = true
same_capability _ _ = false

-- `capability in capabilities`
abbrev pub holds : Capability → List Capability → Bool
holds c cs = any (same_capability c) cs

unfoldable pub has_capability : User → Capability → Bool
has_capability u c =
    let cs = get_user_capabilities u in if holds system_admin cs then true else holds c cs

unfoldable pub has_any_capability : User → List Capability → Bool
has_any_capability u wanted =
    let cs = get_user_capabilities u in
    if holds system_admin cs then true else any (λ c. holds c cs) wanted

unfoldable pub has_all_capabilities : User → List Capability → Bool
has_all_capabilities u wanted =
    let cs = get_user_capabilities u in
    if holds system_admin cs then true else all (λ c. holds c cs) wanted

-- A decorated endpoint, called with its `current_user`; `endpoint` is what the function itself
-- would do.
module _ {A : Type 0} where
  guarded : (User → Bool) → Option User → Outcome A → Outcome A
  guarded has none endpoint = raise (http 401)
  guarded has (some u) endpoint = if not (has u) then raise (http 403) else endpoint

  unfoldable pub require_capability : Capability → Option User → Outcome A → Outcome A
  unfolding guarded
  require_capability c current_user endpoint =
      guarded (λ u. has_capability u c) current_user endpoint

  unfoldable pub require_any_capability : List Capability → Option User → Outcome A → Outcome A
  unfolding guarded
  require_any_capability cs current_user endpoint =
      guarded (λ u. has_any_capability u cs) current_user endpoint

  unfoldable pub require_all_capabilities : List Capability → Option User → Outcome A → Outcome A
  unfolding guarded
  require_all_capabilities cs current_user endpoint =
      guarded (λ u. has_all_capabilities u cs) current_user endpoint
