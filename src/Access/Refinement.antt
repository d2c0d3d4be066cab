-- ===== src/Access/Refinement.antt =====
-- check_memory_access against the policy.
use mathlib.Core.Path.{subst}
use native.Mathlib.Nat.{le_trans}
use ninai.Access.{
  AccessDecision, Action, Database, MemoryMetadata, allow, clearance, clearance_details, deny,
  is_user, no_details, org_isolation, own, owner_details, permits,
}
use ninai.Access.Checker.{
  check_memory_access, check_scope_access, check_share_access, check_team_access, get_memory,
  is_membership, is_share, or_else, scope_part, share_part, team_of, team_part,
}
use ninai.Access.Filter.{is_reading, is_wide}
use ninai.Access.Policy.{HasUniqueKeys, grants_share, grants_team, role_permits, verdict}
use ninai.Access.Sets.{granted}
use ninai.Base.{
  Bool, Option, Option-cases, Outcome, any-and_unique, arith, count, count_mono, database_error,
  false, if◌then◌else◌, inl, inr, leb, ltb, none, not, ok, raise, refl, scalar_unique, some, true,
  ℕ, ◌&&◌, ◌==◌, ◌>>=◌, ◌||◌, ◌≡◌, ◌≤◌,
}

abbrev pub is_allowed : Outcome AccessDecision → Bool
is_allowed (ok d) = d.allowed
is_allowed (raise e) = false

-- The call returns and its decision is `b`, or, for `none`, the driver's error comes out.
abbrev pub Decides : Outcome AccessDecision → Option Bool → Type 0
Decides r none = r ≡ raise database_error
Decides (ok d) (some b) = d.allowed ≡ b
Decides (raise e) (some b) = ⊥

Decides-or_else :
    (c rest : Outcome AccessDecision) (a : Bool) (b : Option Bool)
    → Decides c (some a)
    → Decides rest b
    → Decides (c >>= λ d. or_else d rest) (if a then some true else b)
Decides-or_else (ok d) rest true b p q = rw p refl
Decides-or_else (ok d) rest false b p q = rw p q
Decides-or_else (raise e) rest a b p q = absurd p

-- The guards of `check_memory_access`, before what decides the rest.
Decides-guards :
    (in_org fits owner : Bool) (x y z : AccessDecision) (rest : Outcome AccessDecision)
    (b : Option Bool)
    → x.allowed ≡ false
    → y.allowed ≡ false
    → z.allowed ≡ true
    → Decides rest b
    → Decides
        (if not in_org then ok x else if not fits then ok y else if owner then ok z else rest)
        (if in_org && fits then (if owner then some true else b) else some false)
Decides-guards false fits owner x y z rest b p q r s = p
Decides-guards true false owner x y z rest b p q r s = q
Decides-guards true true true x y z rest b p q r s = r
Decides-guards true true false x y z rest b p q r s = s

-- The tests in the order of the code, as one.
in_order :
    (in_org fits owner of_team bound granted : Bool)
    → (if in_org && fits
        then (if owner
            then some true
            else if of_team
            then some true
            else if bound
            then some granted
            else none)
        else some false)
      ≡ (if in_org && fits && not (owner || of_team) && not bound
          then none
          else some (in_org && fits && (owner || (of_team || granted))))
in_order false fits owner of_team bound granted = refl
in_order true false owner of_team bound granted = refl
in_order true true true of_team bound granted = refl
in_order true true false true bound granted = refl
in_order true true false false true granted = refl
in_order true true false false false granted = refl

not_below : (a b : ℕ) → ltb a b ≡ not (leb b a)
not_below a b = ground arith

scope_part-Decides :
    (m : MemoryMetadata) (action : Action)
    → Decides (scope_part m action) (some (is_reading action && is_wide m.scope))
unfolding scope_part check_scope_access
scope_part-Decides m action = ground arith

either_some :
    (a b : Bool) (r : Outcome AccessDecision)
    → Decides r (if a then some true else some b)
    → Decides r (some (a || b))
either_some true b r h = h
either_some false b r h = h

module _ (db : Database) (user_id org_id : ℕ) (unique : HasUniqueKeys db) where
  one_membership : (t : ℕ) → count (is_membership user_id org_id t) db.team_members ≤ 1
  one_membership t =
      le_trans
        (count_mono (is_membership user_id org_id t) (λ m. m.team_id == t && m.user_id == user_id)
          (λ m h. ground arith) db.team_members)
        (unique.member_key t user_id)

  one_share : (id now : ℕ) → count (is_share user_id org_id id now) db.shares ≤ 1
  one_share id now =
      le_trans
        (count_mono (is_share user_id org_id id now)
          (λ s. s.memory_id == id && is_user s.share_type && s.target_id == user_id)
          (λ s h. ground arith) db.shares)
        (unique.share_key id user_id)

  check_team_access-Decides :
      (t : ℕ) (action : Action)
      → Decides
          (check_team_access db user_id org_id t action)
          (some (grants_team role_permits db user_id org_id action (some t)))
  unfolding check_team_access
  check_team_access-Decides t action =
      rw (scalar_unique (is_membership user_id org_id t) db.team_members (one_membership t)) (
        rw
          (any-and_unique (is_membership user_id org_id t) (λ m. role_permits action m.role)
            db.team_members (one_membership t))
          (ground arith))

  check_share_access-Decides :
      (id : ℕ) (action : Action) (now : ℕ)
      → db.binds_aware ≡ true
      → Decides
          (check_share_access db user_id org_id id action now)
          (some (grants_share role_permits db user_id org_id action now id))
  unfolding check_share_access
  check_share_access-Decides id action now bound = rw bound (
      rw (scalar_unique (is_share user_id org_id id now) db.shares (one_share id now)) (
        rw
          (any-and_unique (is_share user_id org_id id now) (λ s. permits action s.permission)
            db.shares (one_share id now))
          (ground arith)))

  refused_share :
      (m : MemoryMetadata) (action : Action) (now : ℕ)
      → db.binds_aware ≡ false
      → share_part db user_id org_id m action now ≡ raise database_error
  unfolding share_part check_share_access
  refused_share m action now unbound = rw unbound refl

  by_driver :
      (m : MemoryMetadata) (action : Action) (now : ℕ) (bound : Bool)
      → db.binds_aware ≡ bound
      → Decides (share_part db user_id org_id m action now) (
          if bound
          then some (
              grants_share role_permits db user_id org_id action now m.id
              || (is_reading action && is_wide m.scope))
          else none)
  unfolding share_part
  by_driver m action now true e =
      either_some (grants_share role_permits db user_id org_id action now m.id)
        (is_reading action && is_wide m.scope) _
        (Decides-or_else (check_share_access db user_id org_id m.id action now)
          (scope_part m action) (grants_share role_permits db user_id org_id action now m.id)
          (some (is_reading action && is_wide m.scope))
          (check_share_access-Decides m.id action now e) (scope_part-Decides m action))
  by_driver m action now false e = refused_share m action now e

  share_part-Decides :
      (m : MemoryMetadata) (action : Action) (now : ℕ)
      → Decides (share_part db user_id org_id m action now) (
          if db.binds_aware
          then some (
              grants_share role_permits db user_id org_id action now m.id
              || (is_reading action && is_wide m.scope))
          else none)
  share_part-Decides m action now = by_driver m action now db.binds_aware refl

  team_part-Decides :
      (t : Option ℕ) (m : MemoryMetadata) (action : Action) (now : ℕ)
      → Decides (team_part t db user_id org_id m action now) (
          if grants_team role_permits db user_id org_id action t
          then some true
          else if db.binds_aware
          then some (
              grants_share role_permits db user_id org_id action now m.id
              || (is_reading action && is_wide m.scope))
          else none)
  unfolding team_part
  team_part-Decides none m action now = share_part-Decides m action now
  team_part-Decides (some t) m action now =
      Decides-or_else (check_team_access db user_id org_id t action)
        (share_part db user_id org_id m action now)
        (grants_team role_permits db user_id org_id action (some t)) _
        (check_team_access-Decides t action) (share_part-Decides m action now)

-- Where the keys of the tables are unique and the driver takes the query for shares,
-- `check_memory_access` returns a decision, and allows the action exactly if the memory exists, is
-- in the caller's organization and within the clearance, and the caller owns it, has a role in its
-- team that permits the action, has an unexpired share that permits it, or reads a memory of the
-- whole organization. With a driver that refuses that query the same holds, except that the call
-- raises the driver's error exactly if the memory is the caller's to see and neither owned by the
-- caller nor granted by the team.
pub check_memory_access-Decides :
    (db : Database) (user_id org_id id : ℕ) (action : Action) (level now : ℕ)
    → HasUniqueKeys db
    → Decides
        (check_memory_access db user_id org_id id action level now)
        (verdict role_permits db user_id org_id action level now (get_memory db id))
unfolding check_memory_access
check_memory_access-Decides db user_id org_id id action level now unique =
    elim (Option-cases (get_memory db id)) [
      | inl e ↦ rw e refl
      | inr (m, e) ↦
          rw (e, not_below level m.required_clearance)
            (subst (Decides _)
              (in_order (m.organization_id == org_id) (leb m.required_clearance level)
                (m.owner_id == user_id)
                (grants_team role_permits db user_id org_id action (team_of m.scope m.scope_id))
                db.binds_aware
                (grants_share role_permits db user_id org_id action now m.id
                  || (is_reading action && is_wide m.scope)))
              (Decides-guards (m.organization_id == org_id) (leb m.required_clearance level)
                (m.owner_id == user_id) (deny org_isolation no_details)
                (deny clearance (clearance_details m.required_clearance level m.classification))
                (allow own (owner_details user_id))
                (team_part (team_of m.scope m.scope_id) db user_id org_id m action now) _ refl refl
                refl
                (team_part-Decides db user_id org_id unique (team_of m.scope m.scope_id) m action
                  now)))
    ]
