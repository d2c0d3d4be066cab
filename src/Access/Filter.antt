-- ===== src/Access/Filter.antt =====
-- filter_memory_ids_with_access of backend/app/services/permission_checker.py: the batched check.
use mathlib.Core.Option
use ninai.Access.{
  Action, Database, MemoryMetadata, MemoryScope, MemorySharing, TeamMember, asks_permissions,
  commenting, global, is_user, organization, permits, reading,
}
use ninai.Access.Checker.{shares_where, team_of}
use ninai.Base.{
  Bool, List, Option, Outcome, [], elem, false, if◌then◌else◌, leb, map, none, ok, select, some,
  true, unexpired, ℕ, ◌&&◌, ◌++◌, ◌==◌, ◌>>=◌, ◌∷◌,
}

-- The value of `mem_by_id`: owner, scope, scope id, clearance and organization.
pub record MemoryFields : Type 0 where
  pub owner_id : ℕ
  pub scope : MemoryScope
  pub scope_id : Option ℕ
  pub required_clearance : ℕ
  pub organization_id : ℕ

abbrev pub fields : MemoryMetadata → MemoryFields
fields m = record {
  owner_id = m.owner_id;
  scope = m.scope;
  scope_id = m.scope_id;
  required_clearance = m.required_clearance;
  organization_id = m.organization_id;
}

-- A dict with number keys, the latest entry first.
abbrev pub lookup {ℓ} : {V : Type ℓ} → ℕ → List (ℕ × V) → Option V
lookup k [] = none
lookup k ((j, v) ∷ d) = let rest = lookup k d in if j == k then some v else rest

-- The loop over `mem_rows` that fills `mem_by_id`.
unfoldable pub index : List (ℕ × MemoryFields) → List MemoryMetadata → List (ℕ × MemoryFields)
index d [] = d
index d (m ∷ ms) = index ((m.id, fields m) ∷ d) ms

abbrev pub is_eligible : ℕ → ℕ → MemoryFields → Bool
is_eligible org_id level f = f.organization_id == org_id && leb f.required_clearance level

-- The loop that fills `eligible_ids`. Each id is kept with its fields, which the later loops read
-- again from the same dict.
unfoldable pub kept :
    ℕ → ℕ → ℕ → Option MemoryFields → List (ℕ × MemoryFields) → List (ℕ × MemoryFields)
kept org_id level id none rest = rest
kept org_id level id (some f) rest = if is_eligible org_id level f then (id, f) ∷ rest else rest

unfoldable pub eligible : ℕ → ℕ → List (ℕ × MemoryFields) → List ℕ → List (ℕ × MemoryFields)
unfolding kept
eligible org_id level d [] = []
eligible org_id level d (id ∷ ids) =
    kept org_id level id (lookup id d) (eligible org_id level d ids)

-- A loop over the eligible ids that adds to `allowed_set` those that pass a test.
unfoldable pub add_where : (ℕ × MemoryFields → Bool) → List (ℕ × MemoryFields) → List ℕ → List ℕ
add_where p [] s = s
add_where p (e ∷ es) s = add_where p es (if p e then e.0 ∷ s else s)

abbrev pub owned_by : ℕ → ℕ × MemoryFields → Bool
owned_by user_id (id, f) = f.owner_id == user_id

abbrev pub is_wide : MemoryScope → Bool
is_wide organization = true
is_wide global = true
is_wide _ = false

abbrev pub is_reading : Action → Bool
is_reading reading = true
is_reading _ = false

abbrev pub is_team_action : Action → Bool
is_team_action reading = true
is_team_action commenting = true
is_team_action _ = false

-- `mem_ids_by_team.setdefault(scope_id, []).append(mem_id)`
unfoldable pub append_to : ℕ → ℕ → List (ℕ × List ℕ) → List (ℕ × List ℕ)
append_to t id [] = (t, id ∷ []) ∷ []
append_to t id ((u, ids) ∷ d) =
    let rest = append_to t id d in if u == t then (u, ids ++ id ∷ []) ∷ d else (u, ids) ∷ rest

unfoldable pub grouped : Option ℕ → ℕ → List (ℕ × List ℕ) → List (ℕ × List ℕ)
unfolding append_to
grouped none id d = d
grouped (some t) id d = append_to t id d

-- The loop that fills `mem_ids_by_team`; its keys are `team_ids`.
unfoldable pub group_by_team : List (ℕ × MemoryFields) → List (ℕ × List ℕ) → List (ℕ × List ℕ)
unfolding grouped
group_by_team [] d = d
group_by_team ((id, f) ∷ es) d = group_by_team es (grouped (team_of f.scope f.scope_id) id d)

abbrev pub keys {ℓ} : {V : Type ℓ} → List (ℕ × V) → List ℕ
keys d = map (λ e. e.0) d

-- The WHERE clause of `team_stmt`.
abbrev pub is_member_row : ℕ → ℕ → List ℕ → TeamMember → Bool
is_member_row user_id org_id team_ids m =
    m.user_id == user_id && m.organization_id == org_id && m.is_active && elem m.team_id team_ids

-- `for team_id in member_team_ids: for mem_id in mem_ids_by_team.get(team_id, []): ...add(mem_id)`
unfoldable pub add_teams : List (ℕ × List ℕ) → List TeamMember → List ℕ → List ℕ
add_teams d [] s = s
add_teams d (m ∷ ms) s = add_teams d ms (Option.get_or (lookup m.team_id d) [] ++ s)

-- The WHERE clause of `share_stmt`.
abbrev pub is_share_row : ℕ → ℕ → List ℕ → Action → ℕ → MemorySharing → Bool
is_share_row user_id org_id ids action now s =
    elem s.memory_id ids
    && is_user s.share_type
    && s.target_id == user_id
    && s.organization_id == org_id
    && s.is_active
    && permits action s.permission
    && unexpired s.expires_at now

unfoldable pub team_step : Database → ℕ → ℕ → Action → List (ℕ × MemoryFields) → List ℕ → List ℕ
team_step db user_id org_id action es s =
    let d = group_by_team es [] in
    if is_team_action action
    then add_teams d (select (is_member_row user_id org_id (keys d)) db.team_members) s
    else s

-- The loop over `share_rows`.
abbrev pub add_rows : List MemorySharing → List ℕ → List ℕ
add_rows rows s = map (λ r. r.memory_id) rows ++ s

unfoldable pub share_step :
    Database → ℕ → ℕ → Action → ℕ → List (ℕ × MemoryFields) → List ℕ → Outcome (List ℕ)
share_step db user_id org_id action now es s =
    if asks_permissions action
    then (shares_where db (is_share_row user_id org_id (keys es) action now) >>= λ rows.
        ok (add_rows rows s))
    else ok s

unfoldable pub scope_step : Action → List (ℕ × MemoryFields) → List ℕ → List ℕ
scope_step action es s = if is_reading action then add_where (λ e. is_wide e.1.scope) es s else s

-- `allowed_set` after the four steps, for the eligible ids.
unfoldable pub allowed_set :
    Database → ℕ → ℕ → Action → ℕ → List (ℕ × MemoryFields) → Outcome (List ℕ)
allowed_set db user_id org_id action now es = share_step db user_id org_id action now es (
    team_step db user_id org_id action es
      (scope_step action es (add_where (owned_by user_id) es [])))

-- The rest of the call, once the eligible ids are known.
unfoldable pub among :
    Database → ℕ → ℕ → List ℕ → Action → ℕ → List (ℕ × MemoryFields) → Outcome (List ℕ)
among db user_id org_id ids action now [] = ok []
among db user_id org_id ids action now (e ∷ es) =
    allowed_set db user_id org_id action now (e ∷ es) >>= λ s. ok (select (λ id. elem id s) ids)

-- The early return on an empty list of ids gives the same empty list.
unfoldable pub filter_memory_ids_with_access :
    Database → ℕ → ℕ → List ℕ → Action → ℕ → ℕ → Outcome (List ℕ)
unfolding among
filter_memory_ids_with_access db user_id org_id ids action level now =
    let d = index [] (select (λ m. elem m.id ids) db.memories) in
    among db user_id org_id ids action now (eligible org_id level d ids)
