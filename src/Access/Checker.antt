-- ===== src/Access/Checker.antt =====
-- check_memory_access of backend/app/services/permission_checker.py, and the three checks that it
-- calls, over the rows that their queries return. `now` is the clock that they read.
use ninai.Access.{
  AccessDecision, Action, Database, MemoryMetadata, MemoryScope, MemorySharing, TeamMember,
  TeamRole, admin, allow, by_scope, by_share, by_team, clearance, clearance_details, commenting,
  deleting, deny, global, is_user, member, memory_details, no_details, no_method, not_found,
  org_isolation, organization, other, own, owner_details, permits, reading, share_details, sharing,
  team, team_details, updating, writing,
}
use ninai.Base.{
  Bool, List, Option, Outcome, database_error, find?, if◌then◌else◌, ltb, none, not, ok, raise,
  scalar_one_or_none, select, some, unexpired, ℕ, ◌&&◌, ◌==◌, ◌>>=◌,
}

-- The WHERE clause of _check_team_access, with the team id that the caller passes.
abbrev pub is_membership : ℕ → ℕ → ℕ → TeamMember → Bool
is_membership user_id org_id team_id m =
    m.user_id == user_id && m.team_id == team_id && m.organization_id == org_id && m.is_active

team_decision : Action → TeamRole → AccessDecision
team_decision reading role = allow by_team (team_details role)
team_decision commenting role = allow by_team (team_details role)
team_decision writing (member r) = deny by_team no_details
team_decision writing role = allow by_team (team_details role)
team_decision updating (member r) = deny by_team no_details
team_decision updating role = allow by_team (team_details role)
team_decision sharing (member r) = deny by_team no_details
team_decision sharing role = allow by_team (team_details role)
team_decision deleting admin = allow by_team (team_details admin)
team_decision deleting role = deny by_team no_details
team_decision (other s) role = deny by_team no_details

team_found : Action → Option TeamMember → AccessDecision
unfolding team_decision
team_found action none = deny by_team no_details
team_found action (some m) = team_decision action m.role

unfoldable pub check_team_access : Database → ℕ → ℕ → ℕ → Action → Outcome AccessDecision
unfolding team_found
check_team_access db user_id org_id team_id action = do
  found ← scalar_one_or_none (select (is_membership user_id org_id team_id) db.team_members)
  ok (team_found action found)

-- A query on the shares. It compares `expires_at`, a column without a time zone, with
-- `datetime.now(timezone.utc)`.
abbrev pub shares_where : Database → (MemorySharing → Bool) → Outcome (List MemorySharing)
shares_where db p = if db.binds_aware then ok (select p db.shares) else raise database_error

-- The WHERE clause of _check_share_access.
abbrev pub is_share : ℕ → ℕ → ℕ → ℕ → MemorySharing → Bool
is_share user_id org_id memory_id now s =
    s.memory_id == memory_id
    && is_user s.share_type
    && s.target_id == user_id
    && s.organization_id == org_id
    && s.is_active
    && unexpired s.expires_at now

share_found : Action → Option MemorySharing → AccessDecision
share_found action none = deny by_share no_details
share_found action (some s) =
    if permits action s.permission
    then allow by_share (share_details s.permission s.shared_by)
    else deny by_share no_details

unfoldable pub check_share_access : Database → ℕ → ℕ → ℕ → Action → ℕ → Outcome AccessDecision
unfolding share_found
check_share_access db user_id org_id memory_id action now = do
  rows ← shares_where db (is_share user_id org_id memory_id now)
  found ← scalar_one_or_none rows
  ok (share_found action found)

unfoldable pub check_scope_access : MemoryScope → Action → AccessDecision
check_scope_access organization reading = allow by_scope no_details
check_scope_access global reading = allow by_scope no_details
check_scope_access scope action = deny by_scope no_details

-- `memory.scope == "team" and memory.scope_id`
abbrev pub team_of : MemoryScope → Option ℕ → Option ℕ
team_of team id = id
team_of scope id = none

-- The first decision that allows, else the rest.
abbrev pub or_else : AccessDecision → Outcome AccessDecision → Outcome AccessDecision
or_else d rest = if d.allowed then ok d else rest

unfoldable pub scope_part : MemoryMetadata → Action → Outcome AccessDecision
unfolding check_scope_access
scope_part m action =
    or_else (check_scope_access m.scope action)
      (ok (deny no_method (memory_details m.scope m.owner_id)))

unfoldable pub share_part : Database → ℕ → ℕ → MemoryMetadata → Action → ℕ → Outcome AccessDecision
unfolding scope_part
share_part db user_id org_id m action now = do
  d ← check_share_access db user_id org_id m.id action now
  or_else d (scope_part m action)

unfoldable pub team_part :
    Option ℕ → Database → ℕ → ℕ → MemoryMetadata → Action → ℕ → Outcome AccessDecision
team_part none db user_id org_id m action now = share_part db user_id org_id m action now
team_part (some t) db user_id org_id m action now = do
  d ← check_team_access db user_id org_id t action
  or_else d (share_part db user_id org_id m action now)

memory_found : Option MemoryMetadata → Database → ℕ → ℕ → Action → ℕ → ℕ → Outcome AccessDecision
unfolding team_part
memory_found none db user_id org_id action level now = ok (deny not_found no_details)
memory_found (some m) db user_id org_id action level now =
    if not (m.organization_id == org_id)
    then ok (deny org_isolation no_details)
    else if ltb level m.required_clearance
    then ok (deny clearance (clearance_details m.required_clearance level m.classification))
    else if m.owner_id == user_id
    then ok (allow own (owner_details user_id))
    else team_part (team_of m.scope m.scope_id) db user_id org_id m action now

-- `session.get(MemoryMetadata, memory_id)`: by primary key.
abbrev pub get_memory : Database → ℕ → Option MemoryMetadata
get_memory db id = find? (λ m. m.id == id) db.memories

unfoldable pub check_memory_access : Database → ℕ → ℕ → ℕ → Action → ℕ → ℕ → Outcome AccessDecision
unfolding memory_found
check_memory_access db user_id org_id memory_id action level now =
    memory_found (get_memory db memory_id) db user_id org_id action level now

-- The `access` entry of explain_access.
pub record AccessExplanation : Type 0 where
  pub read_decision : AccessDecision
  pub write_decision : AccessDecision
  pub share_decision : AccessDecision
  pub delete_decision : AccessDecision

unfoldable pub explain_access : Database → ℕ → ℕ → ℕ → ℕ → ℕ → Outcome AccessExplanation
explain_access db user_id org_id memory_id level now = do
  r ← check_memory_access db user_id org_id memory_id reading level now
  w ← check_memory_access db user_id org_id memory_id writing level now
  s ← check_memory_access db user_id org_id memory_id sharing level now
  d ← check_memory_access db user_id org_id memory_id deleting level now
  ok (record { read_decision = r; write_decision = w; share_decision = s; delete_decision = d })
