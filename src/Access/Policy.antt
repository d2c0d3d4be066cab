-- ===== src/Access/Policy.antt =====
-- What the two access checks of permission_checker.py promise, stated over the tables without
-- their order of tests, their queries or their sets.
use ninai.Access.{
  Action, Database, MemoryMetadata, TeamMember, TeamRole, admin, asks_permissions, commenting,
  deleting, is_user, member, other, permits, reading,
}
use ninai.Access.Checker.{get_memory, is_membership, is_share, team_of}
use ninai.Access.Filter.{is_reading, is_team_action, is_wide}
use ninai.Base.{
  Bool, List, Option, any, count, false, if◌then◌else◌, leb, none, not, some, true, ℕ, ◌&&◌, ◌==◌,
  ◌||◌, ◌≤◌,
}

-- Which team roles an action asks for: `check_memory_access` by the role, and
-- `filter_memory_ids_with_access` by the action alone.
abbrev pub role_permits : Action → TeamRole → Bool
role_permits reading role = true
role_permits commenting role = true
role_permits deleting admin = true
role_permits deleting role = false
role_permits (other s) role = false
role_permits action (member r) = false
role_permits action role = true

abbrev pub batch_permits : Action → TeamRole → Bool
batch_permits action role = is_team_action action

module _ (rule : Action → TeamRole → Bool) (db : Database) (user_id org_id : ℕ)
    (action : Action) where
  abbrev pub grants_team : Option ℕ → Bool
  grants_team none = false
  grants_team (some t) =
      any (λ m. is_membership user_id org_id t m && rule action m.role) db.team_members

  abbrev pub grants_share : ℕ → ℕ → Bool
  grants_share now id =
      any (λ s. is_share user_id org_id id now s && permits action s.permission) db.shares

  -- Somebody who may see the memory at all is granted the action.
  abbrev pub grants : ℕ → MemoryMetadata → Bool
  grants now m =
      m.owner_id == user_id
      || (grants_team (team_of m.scope m.scope_id)
          || (grants_share now m.id || (is_reading action && is_wide m.scope)))

  -- The memory exists, in the caller's organization and within the caller's clearance.
  abbrev pub permitted : ℕ → ℕ → Option MemoryMetadata → Bool
  permitted level now none = false
  permitted level now (some m) =
      m.organization_id == org_id && leb m.required_clearance level && grants now m

  -- A memory that the caller may see.
  abbrev pub visible : ℕ → Option MemoryMetadata → Bool
  visible level none = false
  visible level (some m) = m.organization_id == org_id && leb m.required_clearance level

  -- Neither the owner nor the team settles the single check, so that it comes to the shares.
  abbrev pub comes_to_shares : ℕ → Option MemoryMetadata → Bool
  comes_to_shares level none = false
  comes_to_shares level (some m) =
      visible level (some m)
      && not (m.owner_id == user_id || grants_team (team_of m.scope m.scope_id))

  -- What the single check comes to; `none` is the error of a driver that refuses the query.
  abbrev pub verdict : ℕ → ℕ → Option MemoryMetadata → Option Bool
  verdict level now o =
      if comes_to_shares level o && not db.binds_aware then none else some (permitted level now o)

  -- The batch comes to the shares, and the driver refuses the query.
  abbrev pub refused : ℕ → List ℕ → Bool
  refused level ids =
      asks_permissions action
      && not db.binds_aware
      && any (λ id. visible level (get_memory db id)) ids

-- The unique keys of the tables: memory_metadata.id, ix_team_members_unique, ix_sharing_unique.
pub record HasUniqueKeys (db : Database) : Type 0 where
  pub memory_key : (id : ℕ) → count (λ m. m.id == id) db.memories ≤ 1
  pub member_key :
      (t u : ℕ) → count (λ (m : TeamMember). m.team_id == t && m.user_id == u) db.team_members ≤ 1
  pub share_key :
      (id u : ℕ)
      → count (λ s. s.memory_id == id && is_user s.share_type && s.target_id == u) db.shares ≤ 1
