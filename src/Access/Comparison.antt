-- ===== src/Access/Comparison.antt =====
-- The batched check against the single one.
use ninai.Access.{AccessDecision, Action, Database, MemoryMetadata, asks_permissions}
use ninai.Access.Agreement.{filter_memory_ids_with_access-eq-select}
use ninai.Access.Answers.{
  IsBatched, a_decision, bound_and, by_role_alone, is_allowed-check, is_listed, listed_means,
  neither, nobody, not_raised, reading_asks, returned_decision, returned_list, true_answer,
  unrefused,
}
use ninai.Access.Batch.{in_team_not_asked}
use ninai.Access.Checker.{check_memory_access, get_memory, team_of}
use ninai.Access.Filter.{filter_memory_ids_with_access, is_reading, is_team_action, is_wide}
use ninai.Access.Policy.{
  HasUniqueKeys, batch_permits, grants_share, grants_team, permitted, refused, role_permits,
}
use ninai.Access.Refinement.{check_memory_access-Decides, is_allowed}
use ninai.Access.Settled.{batch_implies_check, batched_eq, is_listed-filter, settled}
use ninai.Base.{
  List, ap, arith, elem, elem-select, false, leb, ok, some, sym, true, ℕ, ◌&&◌, ◌==◌, ◌||◌, ◌∙◌,
  ◌≡◌, ◌≢◌, ◌≤◌,
}

module _ (db : Database) (user_id org_id : ℕ) where
  -- Where the keys are unique, whatever the batch lets through, for any action, the single check
  -- allows.
  pub filter_sound :
      (ids : List ℕ) (action : Action) (level now id : ℕ)
      → HasUniqueKeys db
      → is_listed id (filter_memory_ids_with_access db user_id org_id ids action level now) ≡ true
      → is_allowed (check_memory_access db user_id org_id id action level now) ≡ true
  filter_sound ids action level now id unique h =
      let (r, l, p) =
        listed_means (refused batch_permits db user_id org_id action level ids) (elem id ids)
          (permitted batch_permits db user_id org_id action level now (get_memory db id))
          (sym (is_listed-filter db user_id org_id ids action level now id unique) ∙ h) in
      is_allowed-check db user_id org_id id action level now unique
      ∙ true_answer _ _ (settled db user_id org_id db.binds_aware ids action level now id r l p)
          (batch_implies_check db user_id org_id action level now (get_memory db id) p)

  -- Where the keys are unique, and the action is to read, to comment or none of those that a team
  -- role decides: if both calls return, the batch lets an id of the list through exactly if the
  -- single check allows it; and both return where the driver takes the query for shares.
  pub filter_agrees :
      (ids : List ℕ) (action : Action) (level now id : ℕ)
      → HasUniqueKeys db
      → IsBatched action
      → ((l : List ℕ) (d : AccessDecision)
          → filter_memory_ids_with_access db user_id org_id ids action level now ≡ ok l
          → check_memory_access db user_id org_id id action level now ≡ ok d
          → elem id l ≡ (elem id ids && d.allowed))
        × (db.binds_aware ≡ true
            → ((l : List ℕ) × (filter_memory_ids_with_access db user_id org_id ids action level now
                  ≡ ok l))
              × ((d : AccessDecision) × (check_memory_access db user_id org_id id action level now
                    ≡ ok d)))
  filter_agrees ids action level now id unique h =
      let batch =
        filter_memory_ids_with_access-eq-select db user_id org_id ids action level now unique in
      let single = check_memory_access-Decides db user_id org_id id action level now unique in
      (
        (λ l d f c.
            ap (elem id) (sym (returned_list _ _ l (sym batch ∙ f)))
            ∙ elem-select _ id ids
            ∙ ap (λ b. elem id ids && b)
                (batched_eq db user_id org_id action level now (get_memory db id) h
                  ∙ sym (returned_decision _ _ _ d single c))),
        (λ bound. (
          (_, batch ∙ not_raised _ _ (unrefused (asks_permissions action) _ _ bound)),
          a_decision _ _ _ single (bound_and _ _ bound),
        )),
      )

  -- Where the keys are unique, a member whose role in the memory's team permits an action other
  -- than reading and commenting, and who neither owns the memory nor has a share that permits it,
  -- is allowed it by the single check, within organization and clearance; but the batch drops the
  -- id.
  pub filter_misses_team_roles :
      (ids : List ℕ) (action : Action) (level now id : ℕ) (m : MemoryMetadata)
      → HasUniqueKeys db
      → get_memory db id ≡ some m
      → m.organization_id ≡ org_id
      → m.required_clearance ≤ level
      → is_team_action action ≡ false
      → m.owner_id ≢ user_id
      → grants_share role_permits db user_id org_id action now m.id ≡ false
      → grants_team role_permits db user_id org_id action (team_of m.scope m.scope_id) ≡ true
      → (is_allowed (check_memory_access db user_id org_id id action level now) ≡ true)
        × (is_listed id (filter_memory_ids_with_access db user_id org_id ids action level now)
            ≡ false)
  filter_misses_team_roles ids action level now id m unique e org clear not_asked not_owner no_share
        role =
      (
        rw (is_allowed-check db user_id org_id id action level now unique, e)
            (by_role_alone (m.organization_id == org_id) (leb m.required_clearance level)
              (m.owner_id == user_id) _ db.binds_aware
              (grants_share role_permits db user_id org_id action now m.id
                || is_reading action && is_wide m.scope)
              (ground arith) (ground arith) role),
        is_listed-filter db user_id org_id ids action level now id unique
            ∙ neither (refused batch_permits db user_id org_id action level ids)
                (elem id ids
                  && permitted batch_permits db user_id org_id action level now (get_memory db id))
                (rw e (
                  nobody (elem id ids)
                    (m.organization_id == org_id && leb m.required_clearance level)
                    (m.owner_id == user_id)
                    (grants_team batch_permits db user_id org_id action
                      (team_of m.scope m.scope_id))
                    (grants_share role_permits db user_id org_id action now m.id)
                    (is_reading action) (is_wide m.scope) (ground arith)
                    (in_team_not_asked db user_id org_id action (team_of m.scope m.scope_id)
                      not_asked)
                    no_share (reading_asks action not_asked))),
      )
