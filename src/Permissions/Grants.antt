-- ===== src/Permissions/Grants.antt =====
-- What `_load_permissions_from_db` collects from the joined rows.
use ninai.Base.{
  Bool, Bool-cases, List, Text, [], any, any-append, ap, arith, if◌then◌else◌, inl, inr, map, refl,
  same_text, same_text-eq, select, true, unexpired, ℕ, ◌&&◌, ◌||◌, ◌∙◌, ◌∷◌, ◌≡◌,
}
use ninai.Permissions.{
  Database, Role, UserRole, add_all, aggregate, applies, holds, in_org, join_roles,
  load_permissions_from_db,
}

holds_of_same :
    (acc : List Text) (q p : Text) → same_text q p ≡ true → holds acc q ≡ true → holds acc p ≡ true
holds_of_same acc q p e h = rw (← same_text-eq q p e) h

-- What one `add` does to membership.
holds-add :
    (acc : List Text) (q p : Text)
    → holds (if holds acc q then acc else q ∷ acc) p ≡ (same_text q p || holds acc p)
holds-add acc q p = elim (Bool-cases (holds acc q)) [
  | inl old ↦ rw old (elim (Bool-cases (same_text q p)) [
    | inl e ↦ rw (holds_of_same acc q p e old) (rw e refl)
    | inr e ↦ rw e refl
  ])
  | inr new ↦ rw new refl
]

or_swap : (a b c : Bool) → ((a || b) || c) ≡ (b || (a || c))
or_swap a b c = ground arith

holds-add_all :
    (acc ps : List Text) (p : Text) → holds (add_all acc ps) p ≡ (holds acc p || holds ps p)
unfolding add_all
holds-add_all acc [] p = ground arith
holds-add_all acc (q ∷ ps) p =
    holds-add_all (if holds acc q then acc else q ∷ acc) ps p
    ∙ rw (holds-add acc q p) (or_swap (same_text q p) (holds acc p) (holds ps p))

holds-aggregate :
    (acc : List Text) (rows : List (List Text)) (p : Text)
    → holds (aggregate acc rows) p ≡ (holds acc p || any (λ row. holds row p) rows)
unfolding aggregate
holds-aggregate acc [] p = ground arith
holds-aggregate acc (row ∷ rows) p =
    holds-aggregate (add_all acc row) rows p
    ∙ rw (holds-add_all acc row p)
        (or_assoc (holds acc p) (holds row p) (any (λ r. holds r p) rows))
  where
    or_assoc : (a b c : Bool) → ((a || b) || c) ≡ (a || (b || c))
    or_assoc a b c = ground arith

-- The rows of the roles that fit, tested one by one.
any-map-select :
    (id p : Text) (roles : List Role)
    → any (λ row. holds row p) (map (λ r. r.permissions) (select (λ r. same_text r.id id) roles))
      ≡ any (λ r. same_text r.id id && holds r.permissions p) roles
any-map-select id p [] = refl
any-map-select id p (r ∷ roles) = elim (Bool-cases (same_text r.id id)) [
  | inl e ↦ rw e (ap (λ b. holds r.permissions p || b) (any-map-select id p roles))
  | inr e ↦ rw e (any-map-select id p roles)
]

any-join_roles :
    (user_id org_id p : Text) (now : ℕ) (roles : List Role) (assignments : List UserRole)
    → any (λ row. holds row p) (join_roles roles (select (applies user_id org_id now) assignments))
      ≡ any
          (λ a.
            applies user_id org_id now a
            && any (λ r. same_text r.id a.role_id && holds r.permissions p) roles)
          assignments
unfolding join_roles
any-join_roles u o p now roles [] = refl
any-join_roles u o p now roles (a ∷ rest) = elim (Bool-cases (applies u o now a)) [
  | inl e ↦ rw e (
      any-append (λ row. holds row p)
        (map (λ r. r.permissions) (select (λ r. same_text r.id a.role_id) roles))
        (join_roles roles (select (applies u o now) rest))
      ∙ rw (any-map-select a.role_id p roles) (
          ap (λ b. any (λ r. same_text r.id a.role_id && holds r.permissions p) roles || b)
            (any-join_roles u o p now roles rest)))
  | inr e ↦ rw e (any-join_roles u o p now roles rest)
]

-- A permission is loaded from the database exactly when a role that has it is assigned to the
-- user, in the organization asked for (in any one when none is given), and the assignment has not
-- expired.
pub holds-load_permissions_from_db :
    (db : Database) (user_id org_id p : Text) (now : ℕ)
    → holds (load_permissions_from_db db user_id org_id now) p
      ≡ any
          (λ a.
            same_text a.user_id user_id
            && in_org org_id a
            && unexpired a.expires_at now
            && any (λ r. same_text r.id a.role_id && holds r.permissions p) db.roles)
          db.user_roles
unfolding load_permissions_from_db
holds-load_permissions_from_db db u o p now =
    holds-aggregate [] (join_roles db.roles (select (applies u o now) db.user_roles)) p
    ∙ any-join_roles u o p now db.roles db.user_roles
