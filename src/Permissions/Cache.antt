-- ===== src/Permissions/Cache.antt =====
-- How old a cached permission list can be. The histories are those of one user and organization's
-- key among any others: reads and invalidations, in any order, while the database changes
-- underneath in any way (`db_at` gives its contents at each time).
use native.Mathlib.Nat.{le_refl, le_trans}
use ninai.Base.{
  Bool, Bool-cases, List, Option, Option-cases, Text, [], ap, arith, false, if◌then◌else◌, inl, inr,
  ltb, ltb→lt, none, refl, same_text, same_text-eq, some, some-injective, split, suc, sym, true, ℕ,
  ◌++◌, ◌+◌, ◌<◌, ◌∙◌, ◌∷◌, ◌≡◌, ◌≤◌, ◌⊎◌,
}
use ninai.Permissions.{
  Database, Redis, cache_key, cache_prefix, colon, delete_pattern, get_effective_permissions,
  invalidate_user_cache, load_permissions_from_db, mem_text, star,
}
use ninai.Permissions.Segments.{free_of, split_at}

append-injective : (xs ys zs : Text) → xs ++ ys ≡ xs ++ zs → ys ≡ zs
append-injective [] ys zs e = e
append-injective (x ∷ xs) ys zs e = append-injective xs ys zs (cc)

-- An identifier has no colon.
abbrev pub IsId : Text → Type 0
IsId s = free_of colon s ≡ true

abbrev key_rest : Text → Text → Text
key_rest u o = u ++ colon ∷ o

rest_of_key : (u v o q : Text) → cache_key u o ≡ cache_key v q → key_rest u o ≡ key_rest v q
unfolding cache_key
rest_of_key u v o q e = append-injective cache_prefix (key_rest u o) (key_rest v q) e

user_of_rest : (u v o q : Text) → IsId u → IsId v → key_rest u o ≡ key_rest v q → u ≡ v
user_of_rest u v o q hu hv e =
    let a : split colon (key_rest u o) ≡ u ∷ split colon o = split_at colon u o hu in
    let b : split colon (key_rest v q) ≡ v ∷ split colon q = split_at colon v q hv in
    let m : split colon (key_rest u o) ≡ split colon (key_rest v q) = ap (λ x. split colon x) e in
    let heads : u ∷ split colon o ≡ v ∷ split colon q = sym a ∙ m ∙ b in cc heads

org_of_rest : (u v o q : Text) → u ≡ v → key_rest u o ≡ key_rest v q → o ≡ q
org_of_rest u v o q h e =
    let k : key_rest v o ≡ key_rest v q = ap (λ x. key_rest x o) (sym h) ∙ e in
    let tails : colon ∷ o ≡ colon ∷ q = append-injective v (colon ∷ o) (colon ∷ q) k in cc tails

none_is_some : {A B : Type 0} {x : Option A} {v : A} → x ≡ none → x ≡ some v → B
none_is_some e h = cc

unless_deleted :
    {A : Type 0} (b : Bool) (x : Option A) (v : A) → (if b then none else x) ≡ some v → x ≡ some v
unless_deleted true x v e = cc
unless_deleted false x v e = e

unless_expired :
    {A : Type 0} (b c : Bool) (w v : A) (x : Option A)
    → (if b then (if c then some w else none) else x) ≡ some v
    → ((b ≡ true) × (c ≡ true) × (w ≡ v)) ⊎ (x ≡ some v)
unless_expired true true w v x e = inl (refl, refl, some-injective e)
unless_expired true false w v x e = cc
unless_expired false c w v x e = inr e

module _ (redis : Redis) (db_at : ℕ → Database) (n : ℕ) where
  open redis use {
    State, Value, get, setex, delete, dumps, loads, get-setex, get-delete, loads-dumps,
  }

  -- The list was loaded at a time up to `now`, and `later` is within the time to live after it.
  abbrev LoadedAt : Text → Text → ℕ → ℕ → List Text → Type 0
  LoadedAt u o now later l =
      (at : ℕ) × (at ≤ now)
      × (later < at + suc n)
      × (l ≡ load_permissions_from_db (db_at at) u o at)

  abbrev IsFresh : ℕ → State → Type 0
  IsFresh now s =
      (u o : Text) (later : ℕ) (v : Value)
      → IsId u
      → now ≤ later
      → get (cache_key u o) later s ≡ some v
      → LoadedAt u o now later (loads v)

  delete-IsFresh :
      (now : ℕ) (ks : List Text) (s : State) → IsFresh now s → IsFresh now (delete ks s)
  delete-IsFresh now ks s f u o later v hu le e = f u o later v hu le (
      unless_deleted (mem_text (cache_key u o) ks) (get (cache_key u o) later s) v
        (sym (get-delete ks (cache_key u o) later s) ∙ e))

  loads_of_dumps : (l : List Text) (w : Value) → dumps l ≡ w → loads w ≡ l
  loads_of_dumps l w d = ap (λ x. loads x) (sym d) ∙ loads-dumps l

  setex-IsFresh :
      (now : ℕ) (s : State) (u o : Text)
      → IsId u
      → IsFresh now s
      → IsFresh now (
          setex
            (cache_key u o)
            (suc n)
            (dumps (load_permissions_from_db (db_at now) u o now))
            now
            s)
  setex-IsFresh now s u o hu f v q later w hv le e =
      let l = load_permissions_from_db (db_at now) u o now in
      elim (unless_expired (same_text (cache_key u o) (cache_key v q)) (ltb later (now + suc n))
        (dumps l) w (get (cache_key v q) later s)
        (sym (get-setex (cache_key u o) (cache_key v q) (suc n) (dumps l) now later s le) ∙ e)) [
          | inl (k, alive, d) ↦
              let rest : key_rest u o ≡ key_rest v q = rest_of_key u v o q (same_text-eq _ _ k) in
              let user : u ≡ v = user_of_rest u v o q hu hv rest in
              let org : o ≡ q = org_of_rest u v o q user rest in
              (
                now,
                le_refl now,
                ltb→lt later (now + suc n) alive,
                loads_of_dumps l w d
                    ∙ ap (λ x. load_permissions_from_db (db_at now) x o now) user
                    ∙ ap (λ x. load_permissions_from_db (db_at now) v x now) org,
              )
          | inr before ↦ f v q later w hv le before
        ]

  pub data History : ℕ → State → Type 0 where
    begin : (now : ℕ) (s : State) → ((k : Text) (later : ℕ) → get k later s ≡ none) → History now s
    wait : {now : ℕ} {s : State} (later : ℕ) → now ≤ later → History now s → History later s
    read :
        {now : ℕ} {s : State} (u o : Text)
        → IsId u
        → History now s
        → History now (get_effective_permissions redis (some (suc n)) (db_at now) now u o s).1
    forget :
        {now : ℕ} {s : State} (u o : Text)
        → History now s
        → History now (invalidate_user_cache redis u o s)

  -- A read is a hit that changes nothing, or a miss that loads and stores.
  effective-cases :
      (now : ℕ) (u o : Text) (s : State)
      → ((v : Value) × (get (cache_key u o) now s ≡ some v)
          × (get_effective_permissions redis (some (suc n)) (db_at now) now u o s ≡ (loads v, s)))
        ⊎ (get_effective_permissions redis (some (suc n)) (db_at now) now u o s ≡ (
          load_permissions_from_db (db_at now) u o now,
          setex
              (cache_key u o)
              (suc n)
              (dumps (load_permissions_from_db (db_at now) u o now))
              now
              s,
        ))
  unfolding get_effective_permissions
  effective-cases now u o s = elim (Option-cases (get (cache_key u o) now s)) [
    | inl e ↦ inr (rw (e, get_effective_permissions) refl)
    | inr (v, e) ↦ elim (Bool-cases (redis.falsy v)) [
      | inl b ↦ inr (rw (e, get_effective_permissions) (rw b refl))
      | inr b ↦ inl (v, e, rw (e, get_effective_permissions) (rw b refl))
    ]
  ]

  read-IsFresh :
      (now : ℕ) (s : State) (u o : Text)
      → IsId u
      → IsFresh now s
      → IsFresh now (get_effective_permissions redis (some (suc n)) (db_at now) now u o s).1
  read-IsFresh now s u o hu f = elim (effective-cases now u o s) [
    | inl (v, g, e) ↦ rw e f
    | inr e ↦ rw e (setex-IsFresh now s u o hu f)
  ]

  delete_pattern-IsFresh :
      (now : ℕ) (p : Text) (s : State) → IsFresh now s → IsFresh now (delete_pattern redis p s)
  unfolding delete_pattern
  delete_pattern-IsFresh now p s f = deleted (redis.scan_iter p s)
    where
      deleted : (ks : List Text) → IsFresh now (elim ks [ [] ↦ s | k ∷ ks' ↦ delete (k ∷ ks') s ])
      deleted [] = f
      deleted (k ∷ ks') = delete-IsFresh now (k ∷ ks') s f

  forget-IsFresh :
      (now : ℕ) (s : State) (u o : Text)
      → IsFresh now s
      → IsFresh now (invalidate_user_cache redis u o s)
  unfolding invalidate_user_cache
  forget-IsFresh now s u [] f = delete_pattern-IsFresh now (cache_prefix ++ (u ++ colon ∷ star)) s f
  forget-IsFresh now s u (c ∷ cs) f = delete-IsFresh now (cache_key u (c ∷ cs) ∷ []) s f

  later-LoadedAt :
      (u o : Text) (now later t : ℕ) (l : List Text)
      → now ≤ later
      → LoadedAt u o now t l
      → LoadedAt u o later t l
  later-LoadedAt u o now later t l le (at, h, k, e) = (at, le_trans h le, k, e)

  History-IsFresh : {now : ℕ} {s : State} → History now s → IsFresh now s
  History-IsFresh (begin now s empty) =
      λ u o later v hu le e. none_is_some (empty (cache_key u o) later) e
  History-IsFresh (wait {now} later le h) = λ u o t v hu k e.
      later-LoadedAt u o now later t (loads v) le (History-IsFresh h u o t v hu (le_trans le k) e)
  History-IsFresh (read {now} {s} u o hu h) = read-IsFresh now s u o hu (History-IsFresh h)
  History-IsFresh (forget {now} {s} u o h) = forget-IsFresh now s u o (History-IsFresh h)

  -- After any history of reads, invalidations and waits, under any changes of the database, the
  -- list that a read returns is what the database gave at some moment not longer ago than the
  -- time to live, and not in the future.
  pub get_effective_permissions-IsFresh :
      {now : ℕ} {s : State} (u o : Text)
      → IsId u
      → History now s
      → (at : ℕ) × (at ≤ now)
        × (now < at + suc n)
        × ((get_effective_permissions redis (some (suc n)) (db_at now) now u o s).0
            ≡ load_permissions_from_db (db_at at) u o at)
  get_effective_permissions-IsFresh {now} {s} u o hu h = elim (effective-cases now u o s) [
    | inl (v, g, e) ↦ rw e (History-IsFresh h u o now v hu (le_refl now) g)
    | inr e ↦ rw e (now, le_refl now, ground arith, refl)
  ]
