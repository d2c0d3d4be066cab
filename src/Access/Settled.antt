-- ===== src/Access/Settled.antt =====
-- When each of the two checks is settled without coming to the shares.
-- One set of rules grants what another does, for one action or between two.
use native.Mathlib.Nat.{le_refl}
use ninai.Access.{
  Action, Database, MemoryMetadata, SharePermission, TeamRole, asks_permissions, permits,
}
use ninai.Access.Agreement.{filter_memory_ids_with_access-eq-select}
use ninai.Access.Answers.{
  IsBatched, and_false_right, and_mono, any_of_elem, batch_permits_role, bool_eq, clauses_mono,
  first_two, is_listed, listed_or_raised, only_owner, role_permits_batch, share_unasked,
  unasked_read, unasked_team,
}
use ninai.Access.Batch.{in_team_not_asked, no_share_permits}
use ninai.Access.Checker.{get_memory, is_membership, is_share, team_of}
use ninai.Access.Filter.{filter_memory_ids_with_access, is_reading, is_wide}
use ninai.Access.Policy.{
  HasUniqueKeys, batch_permits, comes_to_shares, grants_share, grants_team, permitted, refused,
  role_permits, visible,
}
use ninai.Base.{
  Bool, List, Option, any, any_mono, ap, elem, false, if◌then◌else◌, leb, none, not, refl, some,
  true, ℕ, ◌&&◌, ◌==◌, ◌∙◌, ◌≡◌, ◌≤◌,
}

module _ (db : Database) (user_id org_id : ℕ) where
  pub grants_team_mono :
      (rule rule' : Action → TeamRole → Bool) (a b : Action) (t : Option ℕ)
      → ((r : TeamRole) → rule a r ≡ true → rule' b r ≡ true)
      → grants_team rule db user_id org_id a t ≡ true
      → grants_team rule' db user_id org_id b t ≡ true
  grants_team_mono rule rule' a b none h g = cc
  grants_team_mono rule rule' a b (some t) h g =
      any_mono _ _ (λ m k. and_mono (is_membership user_id org_id t m) _ _ (h m.role) k)
        db.team_members g

  pub grants_share_mono :
      (rule rule' : Action → TeamRole → Bool) (a b : Action) (now id : ℕ)
      → ((p : SharePermission) → permits a p ≡ true → permits b p ≡ true)
      → grants_share rule db user_id org_id a now id ≡ true
      → grants_share rule' db user_id org_id b now id ≡ true
  grants_share_mono rule rule' a b now id h =
      any_mono _ _ (λ s k. and_mono (is_share user_id org_id id now s) _ _ (h s.permission) k)
        db.shares

  pub permitted_mono :
      (rule rule' : Action → TeamRole → Bool) (a b : Action) (level level' now : ℕ)
      (o : Option MemoryMetadata)
      → ((r : TeamRole) → rule a r ≡ true → rule' b r ≡ true)
      → ((p : SharePermission) → permits a p ≡ true → permits b p ≡ true)
      → (is_reading a ≡ true → is_reading b ≡ true)
      → level ≤ level'
      → permitted rule db user_id org_id a level now o ≡ true
      → permitted rule' db user_id org_id b level' now o ≡ true
  permitted_mono rule rule' a b level level' now none h k r l e = cc
  permitted_mono rule rule' a b level level' now (some m) h k r l e =
      clauses_mono (m.organization_id == org_id) (m.owner_id == user_id)
        (grants_team rule db user_id org_id a (team_of m.scope m.scope_id))
        (grants_team rule' db user_id org_id b (team_of m.scope m.scope_id))
        (grants_share rule db user_id org_id a now m.id)
        (grants_share rule' db user_id org_id b now m.id) (is_reading a) (is_reading b)
        (is_wide m.scope) m.required_clearance level level' l
        (grants_team_mono rule rule' a b (team_of m.scope m.scope_id) h)
        (grants_share_mono rule rule' a b now m.id k) r e

  pub is_listed-filter :
      (ids : List ℕ) (action : Action) (level now id : ℕ)
      → HasUniqueKeys db
      → is_listed id (filter_memory_ids_with_access db user_id org_id ids action level now) ≡ (
          if refused batch_permits db user_id org_id action level ids
          then false
          else (elem id ids
              && permitted batch_permits db user_id org_id action level now (get_memory db id)))
  is_listed-filter ids action level now id unique =
      ap (is_listed id)
        (filter_memory_ids_with_access-eq-select db user_id org_id ids action level now unique)
      ∙ listed_or_raised (refused batch_permits db user_id org_id action level ids) id ids
          (λ x. permitted batch_permits db user_id org_id action level now (get_memory db x))

  pub visible-permitted :
      (action : Action) (level now : ℕ) (o : Option MemoryMetadata)
      → permitted batch_permits db user_id org_id action level now o ≡ true
      → visible batch_permits db user_id org_id action level o ≡ true
  visible-permitted action level now none h = cc
  visible-permitted action level now (some m) h =
      first_two (m.organization_id == org_id) (leb m.required_clearance level) _ h

  -- Where no share permission permits the action, what the batch grants is the owner's.
  pub owner_alone :
      (action : Action) (level now : ℕ) (o : Option MemoryMetadata)
      → asks_permissions action ≡ false
      → permitted batch_permits db user_id org_id action level now o ≡ true
      → comes_to_shares role_permits db user_id org_id action level o ≡ false
  owner_alone action level now none a h = cc
  owner_alone action level now (some m) a h =
      only_owner (m.organization_id == org_id) (leb m.required_clearance level)
        (m.owner_id == user_id) _
        (grants_team role_permits db user_id org_id action (team_of m.scope m.scope_id)) _ _
        (is_wide m.scope)
        (in_team_not_asked db user_id org_id action (team_of m.scope m.scope_id)
          (unasked_team action a))
        (no_share_permits db user_id org_id action now m.id a) (unasked_read action a) h

  -- What a batch that returns lets through, the single check settles without the driver's error.
  pub settled :
      (bound : Bool) (ids : List ℕ) (action : Action) (level now id : ℕ)
      → (asks_permissions action
          && not bound
          && any (λ x. visible batch_permits db user_id org_id action level (get_memory db x)) ids)
        ≡ false
      → elem id ids ≡ true
      → permitted batch_permits db user_id org_id action level now (get_memory db id) ≡ true
      → (comes_to_shares role_permits db user_id org_id action level (get_memory db id)
          && not bound)
        ≡ false
  settled true ids action level now id r l p = and_false_right _
  settled false ids action level now id r l p =
      let seen =
        any_of_elem (λ x. visible batch_permits db user_id org_id action level (get_memory db x)) id
          ids l (visible-permitted action level now (get_memory db id) p) in
      let unasked : asks_permissions action ≡ false =
        share_unasked (asks_permissions action) _ seen r in
      rw (owner_alone action level now (get_memory db id) unasked p) refl

  pub batch_implies_check :
      (action : Action) (level now : ℕ) (o : Option MemoryMetadata)
      → permitted batch_permits db user_id org_id action level now o ≡ true
      → permitted role_permits db user_id org_id action level now o ≡ true
  batch_implies_check action level now o =
      permitted_mono batch_permits role_permits action action level level now o
        (batch_permits_role action) (λ p h. h) (λ h. h) (le_refl level)

  pub batched_eq :
      (action : Action) (level now : ℕ) (o : Option MemoryMetadata)
      → IsBatched action
      → permitted batch_permits db user_id org_id action level now o
        ≡ permitted role_permits db user_id org_id action level now o
  batched_eq action level now o b = bool_eq _ _ (batch_implies_check action level now o) (
      permitted_mono role_permits batch_permits action action level level now o
        (λ r. role_permits_batch action r b) (λ p h. h) (λ h. h) (le_refl level))
