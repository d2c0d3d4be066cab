-- ===== src/Access.antt =====
-- The tables that backend/app/services/permission_checker.py reads (models/memory.py, models/team.py),
-- and its result type. Ids and times are only compared, and are numbers.
pub mod Checker
pub mod Filter
pub mod Policy
pub mod Refinement
pub mod Batch
pub mod Sets
pub mod Agreement
pub mod Answers
pub mod Settled
pub mod Comparison
pub mod Isolation
mod Tests
use ninai.Base.{Bool, List, Option, String, [], any, false, true, ℕ, ◌∷◌}

-- The strings that the code compares an action with; `other` is any other string.
pub data Action : Type 0 where
  reading commenting writing updating sharing deleting : Action
  other : String → Action

pub data MemoryScope : Type 0 where
  team organization global : MemoryScope
  narrower : String → MemoryScope

pub data TeamRole : Type 0 where
  lead admin : TeamRole
  member : String → TeamRole

-- ck_share_permission
pub data SharePermission : Type 0 where
  read comment edit : SharePermission

-- ck_share_type; the checker looks for `user` alone
pub data ShareType : Type 0 where
  user group department division organization_wide external : ShareType

pub record MemoryMetadata : Type 0 where
  pub id : ℕ
  pub organization_id : ℕ
  pub owner_id : ℕ
  pub scope : MemoryScope
  pub scope_id : Option ℕ
  pub classification : String
  pub required_clearance : ℕ

pub record TeamMember : Type 0 where
  pub team_id : ℕ
  pub user_id : ℕ
  pub organization_id : ℕ
  pub role : TeamRole
  pub is_active : Bool

pub record MemorySharing : Type 0 where
  pub memory_id : ℕ
  pub organization_id : ℕ
  pub share_type : ShareType
  pub target_id : ℕ
  pub permission : SharePermission
  pub expires_at : Option ℕ
  pub shared_by : ℕ
  pub is_active : Bool

-- The tables, and whether the database's driver binds a time with a zone to a comparison with a
-- column without one: asyncpg refuses it (api/v1/endpoints/audit.py, line 396), SQLite does not.
pub record Database : Type 0 where
  pub memories : List MemoryMetadata
  pub team_members : List TeamMember
  pub shares : List MemorySharing
  pub binds_aware : Bool

pub data AccessMethod : Type 0 where
  not_found org_isolation clearance own by_team by_share by_scope no_method : AccessMethod

-- The `details` of a decision, one constructor for each dict that the code builds.
pub data Details : Type 0 where
  no_details : Details
  clearance_details : ℕ → ℕ → String → Details
  owner_details : ℕ → Details
  team_details : TeamRole → Details
  share_details : SharePermission → ℕ → Details
  memory_details : MemoryScope → ℕ → Details

-- The reason, a sentence for people, is not modelled.
pub record AccessDecision : Type 0 where
  pub allowed : Bool
  pub method : AccessMethod
  pub details : Details

abbrev pub allow : AccessMethod → Details → AccessDecision
allow m d = record { allowed = true; method = m; details = d }

abbrev pub deny : AccessMethod → Details → AccessDecision
deny m d = record { allowed = false; method = m; details = d }

abbrev pub is_user : ShareType → Bool
is_user user = true
is_user _ = false

-- `permission_map.get(action, [])`
abbrev pub allowed_permissions : Action → List SharePermission
allowed_permissions reading = read ∷ comment ∷ edit ∷ []
allowed_permissions commenting = comment ∷ edit ∷ []
allowed_permissions writing = edit ∷ []
allowed_permissions updating = edit ∷ []
allowed_permissions _ = []

abbrev pub same_permission : SharePermission → SharePermission → Bool
same_permission read read = true
same_permission comment comment = true
same_permission edit edit = true
same_permission _ _ = false

-- `if allowed_permissions:`
abbrev pub asks_permissions : Action → Bool
asks_permissions a = any (λ p. true) (allowed_permissions a)

-- `share.permission in allowed_permissions`
abbrev pub permits : Action → SharePermission → Bool
permits a p = any (same_permission p) (allowed_permissions a)
