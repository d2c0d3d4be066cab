-- ===== src/Permissions/Invalidation.antt =====
-- `invalidate_user_cache` (backend/app/services/permission_checker.py) and `delete_pattern`
-- (backend/app/core/redis.py): what the next read returns.
use mathlib.Core.List.{append_assoc}
use ninai.Base.{
  Bool, List, Option, Option-cases, Text, [], ap, arith, false, if◌then◌else◌, inl, inr, none, refl,
  some, sym, true, ℕ, ◌&&◌, ◌++◌, ◌∙◌, ◌∷◌, ◌≡◌, ◌⊎◌,
}
use ninai.Permissions.{
  Database, Redis, cache_key, cache_prefix, colon, delete_pattern, get_effective_permissions,
  invalidate_user_cache, is_literal, is_literal_char, load_permissions_from_db, mem_text, star,
}
use ninai.Permissions.Segments.{same_text_refl}

pattern_prefix : Text → Text
pattern_prefix u = cache_prefix ++ (u ++ colon ∷ [])

prefix_of_key : (u o : Text) → pattern_prefix u ++ o ≡ cache_key u o
unfolding pattern_prefix cache_key
prefix_of_key u o = ap (λ r. cache_prefix ++ r) (append_assoc u (colon ∷ []) o)

prefix_of_pattern : (u : Text) → pattern_prefix u ++ star ≡ cache_prefix ++ (u ++ colon ∷ star)
unfolding pattern_prefix
prefix_of_pattern u = ap (λ r. cache_prefix ++ r) (append_assoc u (colon ∷ []) star)

if_none : {A : Type 0} (b : Bool) (x : Option A) → x ≡ none → (if b then none else x) ≡ none
if_none true x e = refl
if_none false x e = e

if_true : {A : Type 0} (b : Bool) (x y : A) → b ≡ true → (if b then x else y) ≡ x
if_true b x y e = rw e refl

is_literal-append :
    (s t : Text) → is_literal s ≡ true → is_literal t ≡ true → is_literal (s ++ t) ≡ true
is_literal-append [] t h k = k
is_literal-append (c ∷ cs) t h k =
    let (a, b) = both (is_literal_char c) (is_literal cs) h in
    rw (a, is_literal-append cs t b k) refl
  where
    both : (a b : Bool) → (a && b) ≡ true → (a ≡ true) × (b ≡ true)
    both a b h = ground arith

literal_prefix : (u : Text) → is_literal u ≡ true → is_literal (pattern_prefix u) ≡ true
unfolding pattern_prefix
literal_prefix u h =
    is_literal-append cache_prefix (u ++ colon ∷ []) refl (is_literal-append u (colon ∷ []) h refl)

module _ (redis : Redis) where
  open redis use {State, get, delete, scan_iter, get-delete, scan_iter_lem}

  get-delete_self :
      (now : ℕ) (k : Text) (ks : List Text) (s : State)
      → mem_text k ks ≡ true
      → get k now (delete ks s) ≡ none
  get-delete_self now k ks s m =
      get-delete ks k now s ∙ if_true (mem_text k ks) none (get k now s) m

  get-delete_none :
      (now : ℕ) (k : Text) (ks : List Text) (s : State)
      → get k now s ≡ none
      → get k now (delete ks s) ≡ none
  get-delete_none now k ks s e = get-delete ks k now s ∙ if_none (mem_text k ks) (get k now s) e

  scanned :
      (now : ℕ) (u o : Text) (s : State) (v : redis.Value)
      → is_literal u ≡ true
      → get (cache_key u o) now s ≡ some v
      → mem_text (cache_key u o) (scan_iter (cache_prefix ++ (u ++ colon ∷ star)) s) ≡ true
  scanned now u o s v literal e =
      let k : get (pattern_prefix u ++ o) now s ≡ some v =
        ap (λ x. get x now s) (prefix_of_key u o) ∙ e in
      let m : mem_text (pattern_prefix u ++ o) (scan_iter (pattern_prefix u ++ star) s) ≡ true =
        scan_iter_lem (pattern_prefix u) o now s v (literal_prefix u literal) k in
      ap (λ x. mem_text x (scan_iter (cache_prefix ++ (u ++ colon ∷ star)) s))
        (sym (prefix_of_key u o))
      ∙ ap (λ x. mem_text (pattern_prefix u ++ o) (scan_iter x s)) (sym (prefix_of_pattern u))
      ∙ m

  get-delete_pattern :
      (now : ℕ) (k p : Text) (s : State)
      → (get k now s ≡ none) ⊎ (mem_text k (scan_iter p s) ≡ true)
      → get k now (delete_pattern redis p s) ≡ none
  unfolding delete_pattern
  get-delete_pattern now k p s h = deleted (scan_iter p s) h
    where
      deleted :
          (ks : List Text)
          → (get k now s ≡ none) ⊎ (mem_text k ks ≡ true)
          → get k now (elim ks [ [] ↦ s | j ∷ js ↦ delete (j ∷ js) s ]) ≡ none
      deleted [] (inl e) = e
      deleted [] (inr m) = cc
      deleted (j ∷ js) (inl e) = get-delete_none now k (j ∷ js) s e
      deleted (j ∷ js) (inr m) = get-delete_self now k (j ∷ js) s m

  get-invalidate_all :
      (now : ℕ) (u o : Text) (s : State)
      → is_literal u ≡ true
      → get (cache_key u o) now (invalidate_user_cache redis u [] s) ≡ none
  unfolding invalidate_user_cache
  get-invalidate_all now u o s literal = elim (Option-cases (get (cache_key u o) now s)) [
    | inl e ↦ get-delete_pattern now (cache_key u o) (cache_prefix ++ (u ++ colon ∷ star)) s (inl e)
    | inr (v, e) ↦
        get-delete_pattern now (cache_key u o) (cache_prefix ++ (u ++ colon ∷ star)) s
          (inr (scanned now u o s v literal e))
  ]

  get-invalidate :
      (now : ℕ) (u o : Text) (s : State)
      → is_literal u ≡ true
      → get (cache_key u o) now (invalidate_user_cache redis u o s) ≡ none
  unfolding invalidate_user_cache
  get-invalidate now u [] s literal = get-invalidate_all now u [] s literal
  get-invalidate now u (c ∷ cs) s literal =
      let k = cache_key u (c ∷ cs) in
      get-delete_self now (cache_key u (c ∷ cs)) (cache_key u (c ∷ cs) ∷ []) s
        (rw (same_text_refl (cache_key u (c ∷ cs))) refl)

  miss :
      (ttl : Option ℕ) (db : Database) (now : ℕ) (u o : Text) (s : State)
      → get (cache_key u o) now s ≡ none
      → (get_effective_permissions redis ttl db now u o s).0 ≡ load_permissions_from_db db u o now
  unfolding get_effective_permissions
  miss ttl db now u o s e = rw (e, get_effective_permissions) refl

  -- For a user id without characters that a glob pattern reads in its own way, as a uuid is: after
  -- `invalidate_user_cache` for the organization, or for all of them, the next read returns what
  -- the database holds, whatever was cached and whatever the time to live is.
  pub get_effective_permissions-invalidate_user_cache :
      (ttl : Option ℕ) (db : Database) (now : ℕ) (user_id org_id of_org : Text) (s : State)
      → is_literal user_id ≡ true
      → (of_org ≡ org_id) ⊎ (of_org ≡ [])
      → (get_effective_permissions redis ttl db now user_id org_id
          (invalidate_user_cache redis user_id of_org s)).0
        ≡ load_permissions_from_db db user_id org_id now
  get_effective_permissions-invalidate_user_cache ttl db now u o p s literal (inl e) =
      rw e
        (miss ttl db now u o (invalidate_user_cache redis u o s) (get-invalidate now u o s literal))
  get_effective_permissions-invalidate_user_cache ttl db now u o p s literal (inr e) = rw e (
      miss ttl db now u o (invalidate_user_cache redis u [] s)
        (get-invalidate_all now u o s literal))
