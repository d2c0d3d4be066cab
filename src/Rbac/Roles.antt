-- ===== src/Rbac/Roles.antt =====
-- How the roles compare.
use ninai.Base.{arith, if◌then◌else◌, leb, sym, true, ℕ, ◌<◌, ◌≡◌}
use ninai.Rbac.{
  Capability, Role, User, admin, alerts_manage, alerts_view, dlq_manage, dlq_view,
  get_user_capabilities, has_capability, holds, observability_view, operator, other_role,
  pipelines_manage, pipelines_view, queues_manage, queues_view, resources_view, role_capabilities,
  system_admin, user, viewer,
}

-- user and unknown roles below viewer, below operator, below admin.
abbrev pub rank : Role → ℕ
rank admin = 3
rank operator = 2
rank viewer = 1
rank user = 0
rank (other_role s) = 0

-- The capabilities by the rank that they ask for.
abbrev pub rank_of : Capability → ℕ
rank_of pipelines_view = 0
rank_of queues_view = 1
rank_of resources_view = 1
rank_of alerts_view = 1
rank_of observability_view = 1
rank_of dlq_view = 1
rank_of pipelines_manage = 2
rank_of queues_manage = 2
rank_of alerts_manage = 2
rank_of dlq_manage = 2
rank_of _ = 3

-- What the table says of a role other than admin.
table_by_rank :
    (r : Role) (c : Capability)
    → rank r < 3
    → holds c (role_capabilities r) ≡ leb (rank_of c) (rank r)
unfolding role_capabilities
table_by_rank admin c h = ground arith
table_by_rank operator c h = ground arith
table_by_rank viewer c h = ground arith
table_by_rank user c h = ground arith
table_by_rank (other_role s) c h = ground arith

rank_bound : (c : Capability) → leb (rank_of c) 3 ≡ true
rank_bound c = ground arith

has_by_rank :
    (r : Role) (c : Capability)
    → (if holds system_admin (role_capabilities r) then true else holds c (role_capabilities r))
      ≡ leb (rank_of c) (rank r)
unfolding role_capabilities
has_by_rank admin c = sym (rank_bound c)
has_by_rank operator c = table_by_rank operator c (omega arith)
has_by_rank viewer c = table_by_rank viewer c (omega arith)
has_by_rank user c = table_by_rank user c (omega arith)
has_by_rank (other_role s) c = table_by_rank (other_role s) c (omega arith)

-- A user has a capability exactly when the user's role ranks at least as high as it asks for: 0 for
-- viewing pipelines, 1 for the other views, 2 for the operator's four, and 3 for all else, strings
-- that name no capability included. A role that is not in the table ranks with the plain user.
pub has_capability_by_rank :
    (u : User) (c : Capability) → has_capability u c ≡ leb (rank_of c) (rank u.role)
unfolding has_capability get_user_capabilities
has_capability_by_rank u c = has_by_rank u.role c
