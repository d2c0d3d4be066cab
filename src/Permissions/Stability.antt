-- ===== src/Permissions/Stability.antt =====
-- Two reads of the permission list at one time.
use native.Mathlib.Nat.{le_refl}
use ninai.Base.{
  Bool-cases, List, Option, Option-cases, Text, arith, false, inl, inr, ltb, none, refl, some, suc,
  true, zero, ℕ, ◌+◌, ◌∙◌, ◌≡◌, ◌⊎◌,
}
use ninai.Permissions.{
  Database, Redis, cache_key, get_effective_permissions, load_permissions_from_db, set_json,
}
use ninai.Permissions.Segments.{same_text_refl}

hit_of_get :
    (redis : Redis) (ttl : Option ℕ) (db : Database) (now : ℕ) (u o : Text) (s : redis.State)
    (l : List Text)
    → redis.get (cache_key u o) now s ≡ some (redis.dumps l)
    → get_effective_permissions redis ttl db now u o s ≡ (l, s)
unfolding get_effective_permissions
hit_of_get redis ttl db now u o s l e =
    rw (e, get_effective_permissions) (rw (redis.dumps_lem l, redis.loads-dumps l) refl)

get-setex_now :
    (redis : Redis) (k : Text) (n : ℕ) (v : redis.Value) (now : ℕ) (s : redis.State)
    → redis.get k now (redis.setex k (suc n) v now s) ≡ some v
get-setex_now redis k n v now s =
    let alive : ltb now (now + suc n) ≡ true = ground arith in
    redis.get-setex k k (suc n) v now now s (le_refl now) ∙ rw (same_text_refl k, alive) refl

get-set_now :
    (redis : Redis) (k : Text) (v : redis.Value) (now : ℕ) (s : redis.State)
    → redis.get k now (redis.set k v s) ≡ some v
get-set_now redis k v now s = redis.get-set k k v now s ∙ rw (same_text_refl k) refl

get-set_json :
    (redis : Redis) (ttl : Option ℕ) (k : Text) (l : List Text) (now : ℕ) (s : redis.State)
    → redis.get k now (set_json redis k l ttl now s) ≡ some (redis.dumps l)
unfolding set_json
get-set_json redis none k l now s = get-set_now redis k (redis.dumps l) now s
get-set_json redis (some zero) k l now s = get-set_now redis k (redis.dumps l) now s
get-set_json redis (some (suc n)) k l now s = get-setex_now redis k n (redis.dumps l) now s

hit :
    (redis : Redis) (ttl : Option ℕ) (db : Database) (now : ℕ) (u o : Text) (s : redis.State)
    (v : redis.Value)
    → redis.get (cache_key u o) now s ≡ some v
    → redis.falsy v ≡ false
    → get_effective_permissions redis ttl db now u o s ≡ (redis.loads v, s)
unfolding get_effective_permissions
hit redis ttl db now u o s v e b = rw (e, get_effective_permissions) (rw b refl)

abbrev Hit : (redis : Redis) → ℕ → Text → Text → redis.State → Type 0
Hit redis now u o s =
    (v : redis.Value) × (redis.get (cache_key u o) now s ≡ some v) × (redis.falsy v ≡ false)

served_or_loaded :
    (redis : Redis) (ttl : Option ℕ) (db : Database) (now : ℕ) (u o : Text) (s : redis.State)
    → Hit redis now u o s
      ⊎ (get_effective_permissions redis ttl db now u o s ≡ (
        load_permissions_from_db db u o now,
        set_json redis (cache_key u o) (load_permissions_from_db db u o now) ttl now s,
      ))
unfolding get_effective_permissions
served_or_loaded redis ttl db now u o s = elim (Option-cases (redis.get (cache_key u o) now s)) [
  | inl e ↦ inr (rw (e, get_effective_permissions) refl)
  | inr (v, e) ↦ elim (Bool-cases (redis.falsy v)) [
    | inl b ↦ inr (rw (e, get_effective_permissions) (rw b refl))
    | inr b ↦ inl (v, e, b)
  ]
]

-- The second read returns what the first did and changes nothing more, even if the database changed
-- in between.
pub effective_twice :
    (redis : Redis) (ttl : Option ℕ) (db db' : Database) (now : ℕ) (u o : Text) (s : redis.State)
    → get_effective_permissions redis ttl db' now u o
        (get_effective_permissions redis ttl db now u o s).1
      ≡ get_effective_permissions redis ttl db now u o s
effective_twice redis ttl db db' now u o s = elim (served_or_loaded redis ttl db now u o s) [
  | inl (v, e, b) ↦ rw (hit redis ttl db now u o s v e b) (hit redis ttl db' now u o s v e b)
  | inr e ↦
      let l = load_permissions_from_db db u o now in
      rw e (
        hit_of_get redis ttl db' now u o (set_json redis (cache_key u o) l ttl now s) l
          (get-set_json redis ttl (cache_key u o) l now s))
]
