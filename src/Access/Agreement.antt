-- ===== src/Access/Agreement.antt =====
-- `filter_memory_ids_with_access` against the policy.
use mathlib.Core.Option
use native.Mathlib.Nat.{le_trans}
use ninai.Access.{Action, Database, MemoryMetadata, asks_permissions}
use ninai.Access.Batch.{passes}
use ninai.Access.Checker.{get_memory}
use ninai.Access.Filter.{
  MemoryFields, eligible, fields, filter_memory_ids_with_access, index, is_eligible, kept, lookup,
}
use ninai.Access.Policy.{HasUniqueKeys, batch_permits, permitted, refused, visible}
use ninai.Access.Sets.{among-cases, granted}
use ninai.Base.{
  ==_iff, ==_refl, Bool, Bool-cases, List, Option, [], any, ap, arith, count, count-select,
  database_error, elem, false, find?, find?-congr, find?-select, find?_fits, find?_of_count-zero,
  if◌then◌else◌, inl, inr, leb, none, ok, raise, refl, select, select-congr_elem, some, sym, true,
  ℕ, ◌&&◌, ◌==◌, ◌||◌, ◌∙◌, ◌∷◌, ◌≡◌, ◌≤◌,
}

abbrev when_eligible : ℕ → ℕ → (ℕ × MemoryFields → Bool) → ℕ → Option MemoryFields → Bool
when_eligible org_id level p id none = false
when_eligible org_id level p id (some f) = is_eligible org_id level f && p (id, f)

passes-kept :
    (org_id level x id : ℕ) (p : ℕ × MemoryFields → Bool) (o : Option MemoryFields)
    (rest : List (ℕ × MemoryFields))
    → passes x p (kept org_id level id o rest)
      ≡ (id == x && when_eligible org_id level p id o) || passes x p rest
unfolding kept
passes-kept org_id level x id p none rest = ground arith
passes-kept org_id level x id p (some f) rest = ground arith

-- What the loop over the ids keeps: the ids whose fields are eligible.
passes-eligible :
    (org_id level x : ℕ) (p : ℕ × MemoryFields → Bool) (d : List (ℕ × MemoryFields)) (ids : List ℕ)
    → passes x p (eligible org_id level d ids)
      ≡ elem x ids && when_eligible org_id level p x (lookup x d)
unfolding eligible
passes-eligible org_id level x p d [] = refl
passes-eligible org_id level x p d (id ∷ ids) =
    rw
      (
        passes-kept org_id level x id p (lookup id d) (eligible org_id level d ids),
        passes-eligible org_id level x p d ids,
      )
      (elim (Bool-cases (id == x)) [
        | inl same ↦ rw ((==_iff id x).0 same) (ground arith)
        | inr other_id ↦ rw other_id refl
      ])

lookup-index :
    (x : ℕ) (d : List (ℕ × MemoryFields)) (ms : List MemoryMetadata)
    → count (λ m. m.id == x) ms ≤ 1
    → lookup x (index d ms)
      ≡ elim (find? (λ m. m.id == x) ms) [ none ↦ lookup x d | some m ↦ some (fields m) ]
unfolding index
lookup-index x d [] h = refl
lookup-index x d (m ∷ ms) h = ground (
  arith,
  lookup-index x ((m.id, fields m) ∷ d) ms,
  find?_of_count-zero (λ (n : MemoryMetadata). n.id == x) ms,
)

id_listed : (id x : ℕ) (ids : List ℕ) → elem x ids ≡ true → (elem id ids && id == x) ≡ (id == x)
id_listed id x ids h = elim (Bool-cases (id == x)) [
  | inl same ↦ rw ((==_iff id x).0 same) (rw h refl)
  | inr other_id ↦ rw other_id (ground arith)
]

found_fields :
    (o : Option MemoryMetadata)
    → elim o as (λ _. Option MemoryFields) [ none ↦ none | some m ↦ some (fields m) ]
      ≡ Option.map fields o
found_fields none = refl
found_fields (some m) = refl

-- Looking an id of the list up in the fields that the batch loaded.
lookup-loaded :
    (db : Database) (ids : List ℕ) (x : ℕ)
    → HasUniqueKeys db
    → elem x ids ≡ true
    → lookup x (index [] (select (λ m. elem m.id ids) db.memories))
      ≡ Option.map fields (get_memory db x)
lookup-loaded db ids x unique h =
    lookup-index x [] (select (λ m. elem m.id ids) db.memories) (
      le_trans (count-select (λ m. m.id == x) (λ m. elem m.id ids) db.memories)
        (unique.memory_key x))
    ∙ rw
        (
          find?-select (λ m. m.id == x) (λ m. elem m.id ids) db.memories,
          find?-congr (λ m. elem m.id ids && m.id == x) (λ m. m.id == x)
              (λ m. id_listed m.id x ids h) db.memories,
        )
        (found_fields (get_memory db x))

when_eligible_found :
    (db : Database) (user_id org_id : ℕ) (action : Action) (level now x : ℕ)
    (o : Option MemoryMetadata)
    → get_memory db x ≡ o
    → when_eligible org_id level (granted db user_id org_id action now) x (Option.map fields o)
      ≡ permitted batch_permits db user_id org_id action level now o
when_eligible_found db user_id org_id action level now x none e = refl
when_eligible_found db user_id org_id action level now x (some m) e =
    let same : x ≡ m.id = sym ((==_iff m.id x).0 (find?_fits (λ n. n.id == x) db.memories m e)) in
    rw same refl

kept-any :
    (org_id level id : ℕ) (o : Option MemoryFields) (rest : List (ℕ × MemoryFields))
    → any (λ e. true) (kept org_id level id o rest)
      ≡ when_eligible org_id level (λ e. true) id o || any (λ e. true) rest
unfolding kept
kept-any org_id level id none rest = refl
kept-any org_id level id (some f) rest = ground arith

-- The batch has something eligible when a memory of the list is visible.
eligible-any :
    (org_id level : ℕ) (d : List (ℕ × MemoryFields)) (ids : List ℕ)
    → any (λ e. true) (eligible org_id level d ids)
      ≡ any (λ x. when_eligible org_id level (λ e. true) x (lookup x d)) ids
unfolding eligible
eligible-any org_id level d [] = refl
eligible-any org_id level d (id ∷ ids) =
    kept-any org_id level id (lookup id d) (eligible org_id level d ids)
    ∙ ap (λ b. when_eligible org_id level (λ e. true) id (lookup id d) || b)
        (eligible-any org_id level d ids)

any-congr_elem :
    (p q : ℕ → Bool) (xs : List ℕ) → ((x : ℕ) → elem x xs ≡ true → p x ≡ q x) → any p xs ≡ any q xs
any-congr_elem p q [] h = refl
any-congr_elem p q (x ∷ xs) h =
    rw (h x (rw (==_refl x) refl))
      (ap (λ b. q x || b) (any-congr_elem p q xs (λ y m. h y (rw m (later (x == y))))))
  where
    later : (b : Bool) → (b || true) ≡ true
    later b = ground arith

visible-found :
    (db : Database) (user_id org_id : ℕ) (action : Action) (level x : ℕ) (o : Option MemoryMetadata)
    → when_eligible org_id level (λ e. true) x (Option.map fields o)
      ≡ visible batch_permits db user_id org_id action level o
visible-found db user_id org_id action level x none = refl
visible-found db user_id org_id action level x (some m) =
    drop_true (m.organization_id == org_id) (leb m.required_clearance level)
  where
    drop_true : (a b : Bool) → ((a && b) && true) ≡ (a && b)
    drop_true a b = ground arith

-- Where the keys are unique, the batch keeps, in the order of the input, the ids of the memories
-- in the caller's organization and within the clearance that the caller owns, has an unexpired
-- share of that permits the action, reads as a member of the whole organization, or reads or
-- comments on as an active member of their team. It raises the driver's error instead exactly if
-- the driver refuses the query for shares, some share permission permits the action, and a memory
-- of the list is in the organization and within the clearance.
pub filter_memory_ids_with_access-eq-select :
    (db : Database) (user_id org_id : ℕ) (ids : List ℕ) (action : Action) (level now : ℕ)
    → HasUniqueKeys db
    → filter_memory_ids_with_access db user_id org_id ids action level now ≡ (
        if refused batch_permits db user_id org_id action level ids
        then raise database_error
        else ok (
            select
              (λ x. permitted batch_permits db user_id org_id action level now (get_memory db x))
              ids))
unfolding filter_memory_ids_with_access
filter_memory_ids_with_access-eq-select db user_id org_id ids action level now unique =
    among-cases db user_id org_id action now (asks_permissions action) db.binds_aware ids _ refl
      refl
    ∙ rw (eligible-any, some_visible, kept_are) refl
  where
    loaded : List (ℕ × MemoryFields)
    loaded = index [] (select (λ m. elem m.id ids) db.memories)

    some_visible :
        any (λ x. when_eligible org_id level (λ e. true) x (lookup x loaded)) ids
        ≡ any (λ x. visible batch_permits db user_id org_id action level (get_memory db x)) ids
    some_visible = any-congr_elem _ _ ids λ x h.
        rw (lookup-loaded db ids x unique h)
          (visible-found db user_id org_id action level x (get_memory db x))

    kept_are :
        select
          (λ x. passes x (granted db user_id org_id action now) (eligible org_id level loaded ids))
          ids
        ≡ select
            (λ x. permitted batch_permits db user_id org_id action level now (get_memory db x))
            ids
    kept_are = select-congr_elem _ _ ids λ x h.
        rw (passes-eligible, h, lookup-loaded db ids x unique h)
          (when_eligible_found db user_id org_id action level now x (get_memory db x) refl)
