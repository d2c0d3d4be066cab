-- ===== src/Permissions/Tests.antt =====
-- Runs of the permission lists and of their cache, for code of
-- backend/app/services/permission_checker.py.
use ninai.Base.{
  List, Text, [], any, arith, if◌then◌else◌, inr, ltb, none, refl, same_text, some, split, suc,
  true, unexpired, ℕ, ◌&&◌, ◌+◌, ◌<◌, ◌↔◌, ◌∷◌, ◌≡◌, ◌≤◌,
}
use ninai.Permissions.{
  Database, Role, UserRole, cache_key, check_permission, colon, decision_on,
  get_effective_permissions, holds, in_org, invalidate_user_cache, load_permissions_from_db,
  wildcard_permission,
}
use ninai.Permissions.Cache.{History, get_effective_permissions-IsFresh}
use ninai.Permissions.Grants.{holds-load_permissions_from_db}
use ninai.Permissions.Invalidation.{get_effective_permissions-invalidate_user_cache}
use ninai.Permissions.Memory.{memory}
use ninai.Permissions.Segments.{Covers, check_permission-Covers}

abbrev ann : Text
ann = 65 ∷ []

abbrev acme : Text
acme = 66 ∷ []

-- "m:r", "m:*" and "m:r:o"
abbrev read_memory : Text
read_memory = 109 ∷ 58 ∷ 114 ∷ []

abbrev any_memory : Text
any_memory = 109 ∷ 58 ∷ 42 ∷ []

abbrev read_own : Text
read_own = 109 ∷ 58 ∷ 114 ∷ 58 ∷ 111 ∷ []

abbrev reader : Role
reader = record { id = 1 ∷ []; permissions = any_memory ∷ [] }

abbrev assigned : UserRole
assigned = record { user_id = ann; role_id = 1 ∷ []; organization_id = acme; expires_at = some 50 }

abbrev company : Database
company = record { roles = reader ∷ []; user_roles = assigned ∷ [] }

abbrev nobody : Database
nobody = record { roles = reader ∷ []; user_roles = [] }

loaded_list : load_permissions_from_db company ann acme 10 ≡ any_memory ∷ []
unfolding load_permissions_from_db
loaded_list = refl

expired_list : load_permissions_from_db company ann [] 50 ≡ []
unfolding load_permissions_from_db
expired_list = refl

by_wildcard : (decision_on (any_memory ∷ []) read_own).method ≡ wildcard_permission
unfolding decision_on
by_wildcard = refl

abbrev served : List Text × memory.State
served = get_effective_permissions memory (some 300) company 10 ann acme []

-- The assignment is gone, and the list is still served.
stale :
    (get_effective_permissions memory (some 300) nobody 20 ann acme served.1).0 ≡ any_memory ∷ []
unfolding get_effective_permissions load_permissions_from_db cache_key
stale = refl

after_expiry : (get_effective_permissions memory (some 300) nobody 310 ann acme served.1).0 ≡ []
unfolding get_effective_permissions load_permissions_from_db cache_key
after_expiry = refl

-- The assignment of the day before is gone from time 15 on.
abbrev changing : ℕ → Database
changing now = if ltb now 15 then company else nobody

abbrev past :
    History memory changing 299 20
      (get_effective_permissions memory (some 300) company 10 ann acme []).1
past =
    History.wait 20 (omega arith)
      (History.read ann acme refl (History.begin 10 [] (λ k later. refl)))

get_effective_permissions-IsFresh_example :
    (at : ℕ) × (at ≤ 20)
    × (20 < at + suc 299)
    × ((get_effective_permissions memory
          (some 300)
          nobody
          20
          ann
          acme
          (get_effective_permissions memory (some 300) company 10 ann acme []).1).0
        ≡ load_permissions_from_db (changing at) ann acme at)
get_effective_permissions-IsFresh_example =
    get_effective_permissions-IsFresh memory changing 299 ann acme refl past

get_effective_permissions-invalidate_user_cache_example :
    (get_effective_permissions memory
      (some 300)
      nobody
      20
      ann
      acme
      (invalidate_user_cache memory ann [] served.1)).0
    ≡ load_permissions_from_db nobody ann acme 20
get_effective_permissions-invalidate_user_cache_example =
    get_effective_permissions-invalidate_user_cache memory (some 300) nobody 20 ann acme [] served.1
      refl (inr refl)

check_permission-Covers_example :
    ((check_permission memory none company 10 ann acme read_own []).0.allowed ≡ true) ↔ (
      (g : Text) × (holds (get_effective_permissions memory none company 10 ann acme []).0 g ≡ true)
      × Covers (split colon g) (split colon read_own))
check_permission-Covers_example =
    check_permission-Covers memory none company 10 ann acme read_own []

holds-load_permissions_from_db_example :
    holds (load_permissions_from_db company ann acme 10) any_memory
    ≡ any
        (λ a.
          same_text a.user_id ann
          && in_org acme a
          && unexpired a.expires_at 10
          && any (λ r. same_text r.id a.role_id && holds r.permissions any_memory) company.roles)
        company.user_roles
holds-load_permissions_from_db_example =
    holds-load_permissions_from_db company ann acme any_memory 10
