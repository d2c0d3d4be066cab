-- ===== src/Access/Tests.antt =====
-- Tests of backend/app/services/permission_checker.py: user 7 of organization 1 and its team 20.
use ninai.Access.{
  AccessDecision, Database, MemoryMetadata, MemorySharing, TeamMember, allow, by_team, comment,
  commenting, deny, lead, memory_details, no_method, organization, reading, team, team_details,
  user, writing,
}
use ninai.Access.Agreement.{filter_memory_ids_with_access-eq-select}
use ninai.Access.Answers.{is_listed}
use ninai.Access.Checker.{
  check_memory_access, check_scope_access, check_share_access, check_team_access, get_memory,
  share_part, team_part,
}
use ninai.Access.Comparison.{filter_agrees, filter_misses_team_roles, filter_sound}
use ninai.Access.Filter.{
  add_teams, add_where, allowed_set, among, append_to, eligible, filter_memory_ids_with_access,
  group_by_team, grouped, index, kept, scope_step, share_step, team_step,
}
use ninai.Access.Isolation.{check_isolated}
use ninai.Access.Policy.{HasUniqueKeys, permitted, role_permits}
use ninai.Access.Refinement.{Decides, check_memory_access-Decides, is_allowed}
use ninai.Base.{
  List, [], arith, database_error, elem, false, none, ok, raise, refl, some, true, ℕ, ◌&&◌, ◌∷◌,
  ◌≡◌, ◌≤◌,
}

abbrev runbook : MemoryMetadata
runbook = record {
  id = 100;
  organization_id = 1;
  owner_id = 8;
  scope = team;
  scope_id = some 20;
  classification = "internal";
  required_clearance = 1;
}

abbrev payroll : MemoryMetadata
payroll = record {
  id = 101;
  organization_id = 2;
  owner_id = 9;
  scope = organization;
  scope_id = none;
  classification = "restricted";
  required_clearance = 3;
}

abbrev leadership : TeamMember
leadership = record {
  team_id = 20;
  user_id = 7;
  organization_id = 1;
  role = lead;
  is_active = true;
}

abbrev shared_note : MemorySharing
shared_note = record {
  memory_id = 100;
  organization_id = 1;
  share_type = user;
  target_id = 5;
  permission = comment;
  expires_at = some 50;
  shared_by = 8;
  is_active = true;
}

abbrev db : Database
db = record {
  memories = runbook ∷ payroll ∷ [];
  team_members = leadership ∷ [];
  shares = shared_note ∷ [];
  binds_aware = true;
}

db-HasUniqueKeys : HasUniqueKeys db
db-HasUniqueKeys = record {
  memory_key = λ id. ground arith;
  member_key = λ t u. ground arith;
  share_key = λ id u. ground arith;
}

check-lead : check_memory_access db 7 1 100 writing 1 60 ≡ ok (allow by_team (team_details lead))
unfolding check_memory_access team_part check_team_access
check-lead = refl

check-expired :
    check_memory_access db 5 1 100 reading 1 60 ≡ ok (deny no_method (memory_details team 8))
unfolding check_memory_access team_part check_team_access share_part check_share_access
    check_scope_access
check-expired = refl

filter-reads :
    filter_memory_ids_with_access db 7 1 (101 ∷ 100 ∷ 100 ∷ []) reading 1 60 ≡ ok (100 ∷ 100 ∷ [])
unfolding filter_memory_ids_with_access among index eligible kept allowed_set add_where scope_step
    team_step share_step group_by_team grouped append_to add_teams
filter-reads = refl

check_memory_access-Decides_example :
    Decides
      (check_memory_access db 5 1 100 reading 1 40)
      (some (permitted role_permits db 5 1 reading 1 40 (get_memory db 100)))
check_memory_access-Decides_example =
    check_memory_access-Decides db 5 1 100 reading 1 40 db-HasUniqueKeys

filter_memory_ids_with_access-eq-select_example :
    filter_memory_ids_with_access db 7 1 (101 ∷ 100 ∷ []) reading 1 60 ≡ ok (100 ∷ [])
filter_memory_ids_with_access-eq-select_example =
    filter_memory_ids_with_access-eq-select db 7 1 (101 ∷ 100 ∷ []) reading 1 60 db-HasUniqueKeys

filter_agrees_example :
    ((l : List ℕ) (d : AccessDecision)
      → filter_memory_ids_with_access db 5 1 (100 ∷ []) commenting 1 40 ≡ ok l
      → check_memory_access db 5 1 100 commenting 1 40 ≡ ok d
      → elem 100 l ≡ (elem 100 (100 ∷ []) && d.allowed))
    × (db.binds_aware ≡ true
        → ((l : List ℕ) × (filter_memory_ids_with_access db 5 1 (100 ∷ []) commenting 1 40 ≡ ok l))
          × ((d : AccessDecision) × (check_memory_access db 5 1 100 commenting 1 40 ≡ ok d)))
filter_agrees_example = filter_agrees db 5 1 (100 ∷ []) commenting 1 40 100 db-HasUniqueKeys tt

-- With a driver that refuses the query, a member of the team reads a memory that the batch cannot
-- list.
abbrev refusing : Database
refusing = record db { binds_aware = false }

check-refusing :
    check_memory_access refusing 7 1 100 reading 1 60 ≡ ok (allow by_team (team_details lead))
unfolding check_memory_access team_part check_team_access
check-refusing = refl

filter-refusing :
    filter_memory_ids_with_access refusing 7 1 (100 ∷ []) reading 1 60 ≡ raise database_error
unfolding filter_memory_ids_with_access among index eligible kept allowed_set add_where scope_step
    team_step share_step group_by_team grouped append_to add_teams
filter-refusing = refl

filter_sound_example : is_allowed (check_memory_access db 7 1 100 reading 1 60) ≡ true
unfolding filter_memory_ids_with_access among index eligible kept allowed_set add_where scope_step
    team_step share_step group_by_team grouped append_to add_teams
filter_sound_example = filter_sound db 7 1 (100 ∷ []) reading 1 60 100 db-HasUniqueKeys refl

filter_misses_team_roles_example :
    (is_allowed (check_memory_access db 7 1 100 writing 1 60) ≡ true)
    × (is_listed 100 (filter_memory_ids_with_access db 7 1 (100 ∷ []) writing 1 60) ≡ false)
filter_misses_team_roles_example =
    filter_misses_team_roles db 7 1 (100 ∷ []) writing 1 60 100 runbook db-HasUniqueKeys refl refl
      (omega arith) refl (omega arith) refl refl

check_isolated_example :
    (m : MemoryMetadata) × (get_memory db 100 ≡ some m)
    × (m.organization_id ≡ 1)
    × (m.required_clearance ≤ 1)
unfolding check_memory_access team_part check_team_access
check_isolated_example = check_isolated db 7 1 100 writing 1 60 refl
