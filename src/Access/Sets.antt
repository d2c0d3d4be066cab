-- ===== src/Access/Sets.antt =====
-- The set of `filter_memory_ids_with_access` after its steps, or the error of the driver.
use ninai.Access.{Action, Database, asks_permissions}
use ninai.Access.Batch.{
  elem-add_rows, elem-add_where, elem-scope_step, elem-team_step, in_team, none_shared, passes,
}
use ninai.Access.Checker.{team_of}
use ninai.Access.Filter.{
  MemoryFields, add_rows, add_where, allowed_set, among, is_reading, is_share_row, is_wide, keys,
  owned_by, scope_step, share_step, team_step,
}
use ninai.Access.Policy.{batch_permits, grants_share, grants_team}
use ninai.Base.{
  Bool, List, [], any, ap, arith, database_error, elem, false, if◌then◌else◌, not, ok, raise, refl,
  select, select-congr_elem, sym, true, ℕ, ◌&&◌, ◌==◌, ◌||◌, ◌∙◌, ◌∷◌, ◌≡◌,
}

module _ (db : Database) (user_id org_id : ℕ) (action : Action) (now : ℕ) where
  -- The policy, for an id with the fields that the batch reads.
  abbrev pub granted : ℕ × MemoryFields → Bool
  granted e =
      e.1.owner_id == user_id
      || (grants_team batch_permits db user_id org_id action (team_of e.1.scope e.1.scope_id)
          || (grants_share batch_permits db user_id org_id action now e.0
              || (is_reading action && is_wide e.1.scope)))

  passes-or :
      (x : ℕ) (p q : ℕ × MemoryFields → Bool) (es : List (ℕ × MemoryFields))
      → passes x (λ e. p e || q e) es ≡ passes x p es || passes x q es
  passes-or x p q [] = refl
  passes-or x p q (e ∷ es) = ground (arith, passes-or x p q es)

  or_shuffle : (a b c d : Bool) → (c || (b || (d || (a || false)))) ≡ (a || (b || (c || d)))
  or_shuffle a b c d = ground arith

  own : ℕ × MemoryFields → Bool
  own = owned_by user_id

  of_team : ℕ × MemoryFields → Bool
  of_team = in_team db user_id org_id action

  shared : ℕ × MemoryFields → Bool
  shared e = grants_share batch_permits db user_id org_id action now e.0

  wide : ℕ × MemoryFields → Bool
  wide e = is_reading action && is_wide e.1.scope

  passes-granted :
      (x : ℕ) (es : List (ℕ × MemoryFields))
      → passes x granted es
        ≡ passes x own es || (passes x of_team es || (passes x shared es || passes x wide es))
  unfolding own of_team shared wide
  passes-granted x es =
      passes-or x own (λ e. of_team e || (shared e || wide e)) es
      ∙ ap (λ b. passes x own es || b)
          (passes-or x of_team (λ e. shared e || wide e) es
            ∙ ap (λ b. passes x of_team es || b) (passes-or x shared wide es))

  -- The set before the shares.
  abbrev unshared : List (ℕ × MemoryFields) → List ℕ
  unshared es =
      team_step db user_id org_id action es
        (scope_step action es (add_where (owned_by user_id) es []))

  elem-unshared :
      (x : ℕ) (es : List (ℕ × MemoryFields))
      → elem x (unshared es)
        ≡ (passes x of_team es || (passes x wide es || (passes x own es || false)))
  unfolding own of_team wide
  elem-unshared x es = rw (elem-team_step, elem-scope_step, elem-add_where) refl

  elem-with_shares :
      (x : ℕ) (es : List (ℕ × MemoryFields))
      → elem x (
          add_rows
            (select (is_share_row user_id org_id (keys es) action now) db.shares)
            (unshared es))
        ≡ passes x granted es
  unfolding shared
  elem-with_shares x es =
      elem-add_rows db user_id org_id action now x es (unshared es)
      ∙ ap (λ b. passes x shared es || b) (elem-unshared x es)
      ∙ or_shuffle (passes x own es) (passes x of_team es) (passes x shared es) (passes x wide es)
      ∙ sym (passes-granted x es)

  elem-without_shares :
      (x : ℕ) (es : List (ℕ × MemoryFields))
      → asks_permissions action ≡ false
      → elem x (unshared es) ≡ passes x granted es
  unfolding shared
  elem-without_shares x es h =
      elem-unshared x es
      ∙ ap (λ b. b || (passes x of_team es || (passes x wide es || (passes x own es || false))))
          (sym (none_shared db user_id org_id action now x es h))
      ∙ or_shuffle (passes x own es) (passes x of_team es) (passes x shared es) (passes x wide es)
      ∙ sym (passes-granted x es)

  abbrev pub kept_of : List ℕ → List (ℕ × MemoryFields) → List ℕ
  kept_of ids es = select (λ x. passes x granted es) ids

  among-asked :
      (bound : Bool) (ids : List ℕ) (e : ℕ × MemoryFields) (es : List (ℕ × MemoryFields))
      → db.binds_aware ≡ bound
      → asks_permissions action ≡ true
      → among db user_id org_id ids action now (e ∷ es)
        ≡ (if bound then ok (kept_of ids (e ∷ es)) else raise database_error)
  unfolding among allowed_set share_step team_step
  among-asked true ids e es b h = rw h (
      rw b (
        ap ok (
          select-congr_elem _ (λ x. passes x granted (e ∷ es)) ids
            (λ x l. elem-with_shares x (e ∷ es)))))
  among-asked false ids e es b h = rw h (rw b refl)

  among-unasked :
      (ids : List ℕ) (e : ℕ × MemoryFields) (es : List (ℕ × MemoryFields))
      → asks_permissions action ≡ false
      → among db user_id org_id ids action now (e ∷ es) ≡ ok (kept_of ids (e ∷ es))
  unfolding among allowed_set share_step
  among-unasked ids e es h = rw h (
      ap ok (
        select-congr_elem _ (λ x. passes x granted (e ∷ es)) ids
          (λ x l. elem-without_shares x (e ∷ es) h)))

  select_nobody : (ids : List ℕ) → select (λ x. false) ids ≡ []
  select_nobody [] = refl
  select_nobody (x ∷ ids) = select_nobody ids

  pub among-cases :
      (asks bound : Bool) (ids : List ℕ) (es : List (ℕ × MemoryFields))
      → asks_permissions action ≡ asks
      → db.binds_aware ≡ bound
      → among db user_id org_id ids action now es ≡ (
          if asks && not bound && any (λ e. true) es
          then raise database_error
          else ok (kept_of ids es))
  unfolding among
  among-cases true true ids [] a b = ap ok (sym (select_nobody ids))
  among-cases true false ids [] a b = ap ok (sym (select_nobody ids))
  among-cases false bound ids [] a b = ap ok (sym (select_nobody ids))
  among-cases true true ids (e ∷ es) a b = among-asked true ids e es b a
  among-cases true false ids (e ∷ es) a b = among-asked false ids e es b a
  among-cases false bound ids (e ∷ es) a b = among-unasked ids e es a
