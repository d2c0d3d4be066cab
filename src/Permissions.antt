-- ===== src/Permissions.antt =====
-- backend/app/services/permission_checker.py (the permission lists, their cache and
-- `check_permission`), the columns of backend/app/models/user.py that they read, and the calls of
-- backend/app/core/redis.py on the way. The Redis server and the JSON codec are the parameter
-- `Redis`. Identifiers and permissions are texts; an empty `org_id` is the falsy one. A Python set
-- is a list without repetition, of which only membership is used.
pub mod Grants
pub mod Cache
pub mod Stability
pub mod Memory
mod Tests
pub mod Invalidation
pub mod Segments
use ninai.Base.{
  Bool, List, Option, Text, [], any, false, if◌then◌else◌, ltb, map, none, not, same_text, select,
  some, split, suc, true, unexpired, zero, ℕ, ◌&&◌, ◌++◌, ◌+◌, ◌==◌, ◌||◌, ◌∷◌, ◌≡◌, ◌≤◌,
}

-- models/user.py: the columns of Role and of UserRole.
pub record Role : Type 0 where
  pub id : Text
  pub permissions : List Text

pub record UserRole : Type 0 where
  pub user_id : Text
  pub role_id : Text
  pub organization_id : Text
  pub expires_at : Option ℕ

pub record Database : Type 0 where
  pub roles : List Role
  pub user_roles : List UserRole

-- `p in permissions`
abbrev pub holds : List Text → Text → Bool
holds permissions p = any (λ q. same_text q p) permissions

-- `all_permissions.update(perms)`
unfoldable pub add_all : List Text → List Text → List Text
add_all acc [] = acc
add_all acc (p ∷ ps) = add_all (if holds acc p then acc else p ∷ acc) ps

unfoldable pub aggregate : List Text → List (List Text) → List Text
unfolding add_all
aggregate acc [] = acc
aggregate acc (row ∷ rows) = aggregate (add_all acc row) rows

-- `organization_id` is never NULL.
abbrev pub in_org : Text → UserRole → Bool
in_org [] assignment = true
in_org (c ∷ cs) assignment = same_text assignment.organization_id (c ∷ cs)

abbrev pub applies : Text → Text → ℕ → UserRole → Bool
applies user_id org_id now assignment =
    same_text assignment.user_id user_id
    && in_org org_id assignment
    && unexpired assignment.expires_at now

-- The inner join of the assignments with the roles, projected on `Role.permissions`.
unfoldable pub join_roles : List Role → List UserRole → List (List Text)
join_roles roles [] = []
join_roles roles (a ∷ as') =
    map (λ r. r.permissions) (select (λ r. same_text r.id a.role_id) roles) ++ join_roles roles as'

unfoldable pub load_permissions_from_db : Database → Text → Text → ℕ → List Text
unfolding aggregate join_roles
load_permissions_from_db db user_id org_id now =
    aggregate [] (join_roles db.roles (select (applies user_id org_id now) db.user_roles))

-- How access was determined (AccessDecision.method).
pub data Method : Type 0 where
  direct_permission wildcard_permission admin no_permission : Method

pub record AccessDecision : Type 0 where
  pub allowed : Bool
  pub method : Method

abbrev pub colon : ℕ
colon = 58

abbrev pub star : Text
star = 42 ∷ []

abbrev pub all_of_all : Text
all_of_all = 42 ∷ 58 ∷ 42 ∷ []

abbrev pub all_of_admin : Text
all_of_admin = 97 ∷ 100 ∷ 109 ∷ 105 ∷ 110 ∷ 58 ∷ 42 ∷ []

-- f"{parts[0]}:*" and f"{parts[0]}:{parts[1]}:*", for as many parts as there are.
abbrev pub has_wildcard : List Text → List Text → Bool
has_wildcard permissions [] = false
has_wildcard permissions (a ∷ []) = false
has_wildcard permissions (a ∷ b ∷ []) = holds permissions (a ++ colon ∷ star)
has_wildcard permissions (a ∷ b ∷ c ∷ cs) =
    holds permissions (a ++ colon ∷ star) || holds permissions (a ++ colon ∷ (b ++ colon ∷ star))

-- `check_permission`, given the effective permissions.
unfoldable pub decision_on : List Text → Text → AccessDecision
decision_on permissions p =
    if holds permissions p
    then record { allowed = true; method = direct_permission }
    else if has_wildcard permissions (split colon p)
    then record { allowed = true; method = wildcard_permission }
    else if holds permissions all_of_all || holds permissions all_of_admin
    then record { allowed = true; method = admin }
    else record { allowed = false; method = no_permission }

abbrev pub mem_text : Text → List Text → Bool
mem_text k ks = any (λ j. same_text j k) ks

-- Not one of `*`, `?`, `[`, `]`, `^` and the backslash, which a glob pattern reads in its own way.
abbrev pub is_literal_char : ℕ → Bool
is_literal_char c = not (c == 42 || c == 63 || c == 91 || c == 92 || c == 93 || c == 94)

abbrev pub is_literal : Text → Bool
is_literal [] = true
is_literal (c ∷ cs) = is_literal_char c && is_literal cs

-- What the code relies on of the Redis server and of `json`: a value is read back until it
-- expires or is deleted, a scan for `prefix*` finds every key with that prefix where the prefix has
-- none of the characters that a glob pattern reads in its own way, and a list of
-- strings survives `dumps` and `loads`. `falsy` is the emptiness of a string.
pub record Redis : Type 1 where
  pub State : Type 0
  pub Value : Type 0
  pub get : Text → ℕ → State → Option Value
  pub set : Text → Value → State → State
  pub setex : Text → ℕ → Value → ℕ → State → State
  pub delete : List Text → State → State
  pub scan_iter : Text → State → List Text
  pub falsy : Value → Bool
  pub dumps : List Text → Value
  pub loads : Value → List Text
  pub dumps_lem : (l : List Text) → falsy (dumps l) ≡ false
  pub loads-dumps : (l : List Text) → loads (dumps l) ≡ l
  pub get-set :
      (k j : Text) (v : Value) (now : ℕ) (s : State)
      → get j now (set k v s) ≡ (if same_text k j then some v else get j now s)
  pub get-setex :
      (k j : Text) (ttl : ℕ) (v : Value) (now later : ℕ) (s : State)
      → now ≤ later
      → get j later (setex k ttl v now s) ≡ (
          if same_text k j then (if ltb later (now + ttl) then some v else none) else get j later s)
  pub get-delete :
      (ks : List Text) (j : Text) (now : ℕ) (s : State)
      → get j now (delete ks s) ≡ (if mem_text j ks then none else get j now s)
  pub scan_iter_lem :
      (prefix rest : Text) (now : ℕ) (s : State) (v : Value)
      → is_literal prefix ≡ true
      → get (prefix ++ rest) now s ≡ some v
      → mem_text (prefix ++ rest) (scan_iter (prefix ++ star) s) ≡ true

-- "perms:"
abbrev pub cache_prefix : Text
cache_prefix = 112 ∷ 101 ∷ 114 ∷ 109 ∷ 115 ∷ 58 ∷ []

-- f"{CACHE_PREFIX_PERMISSIONS}:{user_id}:{org_id}"
unfoldable pub cache_key : Text → Text → Text
cache_key user_id org_id = cache_prefix ++ (user_id ++ colon ∷ org_id)

module _ (redis : Redis) where
  open redis use {State, Value, get, set, setex, delete, scan_iter, falsy, dumps, loads}

  loaded : Option Value → Option (List Text)
  loaded none = none
  loaded (some v) = if falsy v then none else some (loads v)

  -- RedisClient.get_json and RedisClient.set_json (which calls RedisClient.set).
  unfoldable pub get_json : Text → ℕ → State → Option (List Text)
  unfolding loaded
  get_json key now s = loaded (get key now s)

  set_ttl : Option ℕ → Text → Value → ℕ → State → State
  set_ttl none key v now s = set key v s
  set_ttl (some zero) key v now s = set key v s
  set_ttl (some (suc n)) key v now s = setex key (suc n) v now s

  unfoldable pub set_json : Text → List Text → Option ℕ → ℕ → State → State
  unfolding set_ttl
  set_json key l ttl now s = set_ttl ttl key (dumps l) now s

  -- RedisClient.delete_pattern
  unfoldable pub delete_pattern : Text → State → State
  delete_pattern pattern' s = elim (scan_iter pattern' s) [ [] ↦ s | k ∷ ks ↦ delete (k ∷ ks) s ]

  -- `ttl` is settings.PERMISSION_CACHE_TTL.
  unfoldable pub get_effective_permissions :
      Option ℕ → Database → ℕ → Text → Text → State → List Text × State
  unfolding get_json set_json
  get_effective_permissions ttl db now user_id org_id s =
      elim (get_json (cache_key user_id org_id) now s) [
        | some cached ↦ (cached, s)
        | none ↦
            let permissions = load_permissions_from_db db user_id org_id now in
            (permissions, set_json (cache_key user_id org_id) permissions ttl now s)
      ]

  unfoldable pub check_permission :
      Option ℕ → Database → ℕ → Text → Text → Text → State → AccessDecision × State
  unfolding get_effective_permissions
  check_permission ttl db now user_id org_id permission s =
      let (permissions, s') = get_effective_permissions ttl db now user_id org_id s in
      (decision_on permissions permission, s')

  unfoldable pub invalidate_user_cache : Text → Text → State → State
  unfolding delete_pattern
  invalidate_user_cache user_id [] s = delete_pattern (cache_prefix ++ (user_id ++ colon ∷ star)) s
  invalidate_user_cache user_id (c ∷ cs) s = delete (cache_key user_id (c ∷ cs) ∷ []) s
