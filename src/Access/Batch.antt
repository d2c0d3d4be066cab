-- ===== src/Access/Batch.antt =====
-- What each loop and query of `filter_memory_ids_with_access` contributes to its set, as one search
-- over the eligible ids.
use mathlib.Core.Option
use ninai.Access.{
  Action, Database, MemorySharing, SharePermission, TeamMember, asks_permissions, commenting,
  is_user, permits, reading, updating, writing,
}
use ninai.Access.Checker.{is_membership, is_share, team_of}
use ninai.Access.Filter.{
  MemoryFields, add_rows, add_teams, add_where, append_to, group_by_team, grouped, is_member_row,
  is_reading, is_share_row, is_team_action, is_wide, keys, lookup, scope_step, team_step,
}
use ninai.Access.Policy.{batch_permits, grants_share, grants_team}
use ninai.Base.{
  Bool, Bool-cases, List, Option, [], any, any-and_const, any-append, any-congr, any-const_and,
  any-map, any-select, any-swap, ap, arith, elem, false, inl, inr, is_some_of, none, refl, select,
  some, sym, true, unexpired, ℕ, ◌&&◌, ◌++◌, ◌==◌, ◌||◌, ◌∙◌, ◌∷◌, ◌≡◌,
}

abbrev Entry : Type 0
Entry = ℕ × MemoryFields

-- An eligible id `x` passes a test.
abbrev pub passes : ℕ → (Entry → Bool) → List Entry → Bool
passes x p es = any (λ e. e.0 == x && p e) es

passes_none :
    (x : ℕ) (p : Entry → Bool) (es : List Entry)
    → ((e : Entry) → p e ≡ false)
    → passes x p es ≡ false
passes_none x p [] h = refl
passes_none x p (e ∷ es) h = ground (arith, h e, passes_none x p es h)

pub elem-add_where :
    (x : ℕ) (p : Entry → Bool) (es : List Entry) (s : List ℕ)
    → elem x (add_where p es s) ≡ passes x p es || elem x s
unfolding add_where
elem-add_where x p [] s = refl
elem-add_where x p (e ∷ es) s =
    ground (arith, elem-add_where x p es (e.0 ∷ s), elem-add_where x p es s)

-- The ids under a team of `mem_ids_by_team`.
abbrev members : ℕ → List (ℕ × List ℕ) → List ℕ
members t d = Option.get_or (lookup t d) []

elem-append_to :
    (x t u id : ℕ) (d : List (ℕ × List ℕ))
    → elem x (members t (append_to u id d)) ≡ elem x (members t d) || (u == t && id == x)
unfolding append_to
elem-append_to x t u id [] = ground arith
elem-append_to x t u id ((v, ids) ∷ d) =
    ground (arith, elem-append_to x t u id d, any-append (λ y. y == x) ids (id ∷ []))

elem-grouped :
    (x t id : ℕ) (o : Option ℕ) (d : List (ℕ × List ℕ))
    → elem x (members t (grouped o id d)) ≡ (id == x && is_some_of o t) || elem x (members t d)
unfolding grouped
elem-grouped x t id none d = ground arith
elem-grouped x t id (some u) d = ground (arith, elem-append_to x t u id d)

elem-group_by_team :
    (x t : ℕ) (es : List Entry) (d : List (ℕ × List ℕ))
    → elem x (members t (group_by_team es d))
      ≡ passes x (λ e. is_some_of (team_of e.1.scope e.1.scope_id) t) es || elem x (members t d)
unfolding group_by_team
elem-group_by_team x t [] d = refl
elem-group_by_team x t ((id, f) ∷ es) d = ground (
  arith,
  elem-group_by_team x t es (grouped (team_of f.scope f.scope_id) id d),
  elem-grouped x t id (team_of f.scope f.scope_id) d,
)

elem-add_teams :
    (x : ℕ) (d : List (ℕ × List ℕ)) (ms : List TeamMember) (s : List ℕ)
    → elem x (add_teams d ms s) ≡ any (λ m. elem x (members m.team_id d)) ms || elem x s
unfolding add_teams
elem-add_teams x d [] s = refl
elem-add_teams x d (m ∷ ms) s = ground (
  arith,
  elem-add_teams x d ms (members m.team_id d ++ s),
  any-append (λ y. y == x) (members m.team_id d) s,
)

-- A team that no eligible memory belongs to contributes nothing.
members_of_absent :
    (x t : ℕ) (d : List (ℕ × List ℕ))
    → elem t (keys d) && elem x (members t d) ≡ elem x (members t d)
members_of_absent x t [] = refl
members_of_absent x t ((u, ids) ∷ d) = ground (arith, members_of_absent x t d)

and_false : (b : Bool) → false ≡ (b && false)
and_false b = ground arith

and_shuffle :
    (u t o a p e m : Bool)
    → (u && t && o && a && p && e && m) ≡ (m && u && t && o && a && e && p && true)
and_shuffle true t o a p e m = ground arith
and_shuffle false t o a p e m = ground arith

moved :
    (u t o a e p : Bool) (m x id : ℕ)
    → (m == x && u && t && o && a && e && p && id == m)
      ≡ (id == x && (m == id && u && t && o && a && e && p))
moved u t o a e p m x id = ground arith

none_permits : (a : Action) (p : SharePermission) → asks_permissions a ≡ false → permits a p ≡ false
none_permits reading p h = cc
none_permits commenting p h = cc
none_permits writing p h = cc
none_permits updating p h = cc
none_permits a p h = refl

module _ (db : Database) (user_id org_id : ℕ) (action : Action) where
  -- A test of one entry: the caller is an active member of its team.
  abbrev pub in_team : Entry → Bool
  in_team e = grants_team batch_permits db user_id org_id action (team_of e.1.scope e.1.scope_id)

  -- The part of the query for memberships that does not speak of teams.
  abbrev active_member : TeamMember → Bool
  active_member m = m.user_id == user_id && m.organization_id == org_id && m.is_active

  member_row_gives :
      (x : ℕ) (es : List Entry) (m : TeamMember)
      → (is_member_row user_id org_id (keys (group_by_team es [])) m
          && elem x (members m.team_id (group_by_team es [])))
        ≡ any
            (λ e.
              active_member m
              && (e.0 == x && is_some_of (team_of e.1.scope e.1.scope_id) m.team_id))
            es
  member_row_gives x es m = ground (
    arith,
    members_of_absent x m.team_id (group_by_team es []),
    elem-group_by_team x m.team_id es [],
    any-const_and (active_member m)
        (λ (e : Entry). e.0 == x && is_some_of (team_of e.1.scope e.1.scope_id) m.team_id) es,
  )

  member_rows_grant :
      (c : Bool) (o : Option ℕ)
      → is_team_action action ≡ true
      → any (λ m. active_member m && (c && is_some_of o m.team_id)) db.team_members
        ≡ c && grants_team batch_permits db user_id org_id action o
  member_rows_grant c none h = ground (
    arith,
    any-congr (λ m. active_member m && (c && false)) (λ m. active_member m && false)
        (λ m. ground arith) db.team_members,
    any-and_const active_member false db.team_members,
  )
  member_rows_grant c (some t) h =
      any-congr (λ m. active_member m && (c && t == m.team_id))
        (λ m. c && (is_membership user_id org_id t m && batch_permits action m.role))
        (λ m. ground arith) db.team_members
      ∙ any-const_and c (λ m. is_membership user_id org_id t m && batch_permits action m.role)
          db.team_members

  elem-team_rows :
      (x : ℕ) (es : List Entry) (s : List ℕ)
      → is_team_action action ≡ true
      → elem x (
          add_teams
            (group_by_team es [])
            (select (is_member_row user_id org_id (keys (group_by_team es []))) db.team_members)
            s)
        ≡ passes x in_team es || elem x s
  elem-team_rows x es s h =
      rw (elem-add_teams, any-select)
        (rw (any-congr _ _ (member_row_gives x es) db.team_members) (
          rw
            (any-swap
              (λ m (e : Entry).
                active_member m
                && (e.0 == x && is_some_of (team_of e.1.scope e.1.scope_id) m.team_id))
              db.team_members es)
            (rw
              (any-congr _ (λ e. e.0 == x && in_team e)
                (λ e. member_rows_grant (e.0 == x) (team_of e.1.scope e.1.scope_id) h) es)
              refl)))

  -- An action for which no team is asked is granted by none.
  pub in_team_not_asked :
      (o : Option ℕ)
      → is_team_action action ≡ false
      → grants_team batch_permits db user_id org_id action o ≡ false
  in_team_not_asked none h = refl
  in_team_not_asked (some t) h =
      rw h (ground (arith, any-and_const (is_membership user_id org_id t) false db.team_members))

  pub elem-team_step :
      (x : ℕ) (es : List Entry) (s : List ℕ)
      → elem x (team_step db user_id org_id action es s) ≡ passes x in_team es || elem x s
  unfolding team_step
  elem-team_step x es s = elim (Bool-cases (is_team_action action)) [
    | inl h ↦ rw h (elem-team_rows x es s h)
    | inr h ↦ rw h (
        ground (
          arith,
          passes_none x in_team es (λ e. in_team_not_asked (team_of e.1.scope e.1.scope_id) h),
        ))
  ]

  -- The batched query asks for the same things in another order.
  share_row_reordered :
      (now x : ℕ) (listed : Bool) (r : MemorySharing)
      → (listed
          && is_user r.share_type
          && r.target_id == user_id
          && r.organization_id == org_id
          && r.is_active
          && permits action r.permission
          && unexpired r.expires_at now
          && r.memory_id == x)
        ≡ (is_share user_id org_id x now r && permits action r.permission && listed)
  share_row_reordered now x true r =
      and_shuffle (is_user r.share_type) (r.target_id == user_id) (r.organization_id == org_id)
        r.is_active (permits action r.permission) (unexpired r.expires_at now) (r.memory_id == x)
  share_row_reordered now x false r =
      and_false (is_share user_id org_id x now r && permits action r.permission)

  entry_moved :
      (now x id : ℕ) (r : MemorySharing)
      → (is_share user_id org_id x now r && permits action r.permission && id == r.memory_id)
        ≡ (id == x && (is_share user_id org_id id now r && permits action r.permission))
  entry_moved now x id r =
      moved (is_user r.share_type) (r.target_id == user_id) (r.organization_id == org_id)
        r.is_active (unexpired r.expires_at now) (permits action r.permission) r.memory_id x id

  share_row_gives :
      (now x : ℕ) (es : List Entry) (r : MemorySharing)
      → (is_share_row user_id org_id (keys es) action now r && r.memory_id == x)
        ≡ any
            (λ e. e.0 == x && (is_share user_id org_id e.0 now r && permits action r.permission))
            es
  share_row_gives now x es r = rw any-map (
      share_row_reordered now x (any (λ (e : Entry). e.0 == r.memory_id) es) r
      ∙ sym (
          any-const_and (is_share user_id org_id x now r && permits action r.permission)
            (λ (e : Entry). e.0 == r.memory_id) es)
      ∙ any-congr
          (λ (e : Entry).
            is_share user_id org_id x now r && permits action r.permission && e.0 == r.memory_id)
          (λ e. e.0 == x && (is_share user_id org_id e.0 now r && permits action r.permission))
          (λ e. entry_moved now x e.0 r) es)

  pub elem-add_rows :
      (now x : ℕ) (es : List Entry) (s : List ℕ)
      → elem x (add_rows (select (is_share_row user_id org_id (keys es) action now) db.shares) s)
        ≡ (passes x (λ e. grants_share batch_permits db user_id org_id action now e.0) es)
          || elem x s
  elem-add_rows now x es s =
      rw (any-append, any-map, any-select)
        (rw (any-congr _ _ (share_row_gives now x es) db.shares) (
          rw
            (any-swap
              (λ r (e : Entry).
                e.0 == x && (is_share user_id org_id e.0 now r && permits action r.permission))
              db.shares es)
            (rw
              (any-congr _
                (λ e. e.0 == x && grants_share batch_permits db user_id org_id action now e.0)
                (λ e. any-const_and (e.0 == x) _ db.shares) es)
              refl)))

  -- An action that no permission allows is granted by no share.
  pub no_share_permits :
      (now id : ℕ)
      → asks_permissions action ≡ false
      → grants_share batch_permits db user_id org_id action now id ≡ false
  no_share_permits now id h =
      any-congr _ (λ s. is_share user_id org_id id now s && false)
        (λ s. ap (λ b. is_share user_id org_id id now s && b) (none_permits action s.permission h))
        db.shares
      ∙ any-and_const (is_share user_id org_id id now) false db.shares
      ∙ sym (and_false _)

  pub none_shared :
      (now x : ℕ) (es : List Entry)
      → asks_permissions action ≡ false
      → passes x (λ e. grants_share batch_permits db user_id org_id action now e.0) es ≡ false
  none_shared now x es h = passes_none x _ es (λ e. no_share_permits now e.0 h)

  pub elem-scope_step :
      (x : ℕ) (es : List Entry) (s : List ℕ)
      → elem x (scope_step action es s)
        ≡ passes x (λ e. is_reading action && is_wide e.1.scope) es || elem x s
  unfolding scope_step
  elem-scope_step x es s = elim (Bool-cases (is_reading action)) [
    | inl h ↦ rw h (elem-add_where x (λ e. is_wide e.1.scope) es s)
    | inr h ↦
        rw h
          (ground (arith, passes_none x (λ (e : Entry). false && is_wide e.1.scope) es (λ e. refl)))
  ]
