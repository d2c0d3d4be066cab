-- ===== src/CapabilityToken.antt =====
-- backend/app/models/capability_token.py and services/capability_token_service.py: the tokens that
-- grant agents scoped use of the memories. Token values, ids and session ids are numbers.
pub mod Service
pub mod Scopes
pub mod Revocation
pub mod Lifecycle
mod Tests
use ninai.Base.{
  Bool, List, Option, Outcome, Text, [], any, false, if◌then◌else◌, leb, ltb, map, none, not, ok,
  same_text, scalar_one_or_none, select, some, split, strip, true, ℕ, ◌&&◌, ◌==◌, ◌>>=◌, ◌||◌, ◌∷◌,
}

-- CapabilityToken. `token_metadata` and the `last_*` and `created_*` columns, which nothing reads
-- here, are left out.
pub record CapabilityToken : Type 0 where
  pub id : ℕ
  pub token : ℕ
  pub organization_id : ℕ
  pub session_id : Option ℕ
  pub scopes : Text
  pub quota_tokens_per_month : ℕ
  pub quota_storage_bytes : ℕ
  pub quota_requests_per_minute : ℕ
  pub tokens_used_this_month : ℕ
  pub storage_used_bytes : ℕ
  pub requests_this_minute : ℕ
  pub active : Bool
  pub quota_exceeded : Bool
  pub revocation_reason : Option Text
  pub revoked_at : Option ℕ
  pub expires_at : ℕ

-- The values of CapabilityScope: read, append, search, upsert, consolidate and promote.
abbrev pub valid_scopes : List Text
valid_scopes =
    (114 ∷ 101 ∷ 97 ∷ 100 ∷ [])
    ∷ (97 ∷ 112 ∷ 112 ∷ 101 ∷ 110 ∷ 100 ∷ [])
    ∷ (115 ∷ 101 ∷ 97 ∷ 114 ∷ 99 ∷ 104 ∷ [])
    ∷ (117 ∷ 112 ∷ 115 ∷ 101 ∷ 114 ∷ 116 ∷ [])
    ∷ (99 ∷ 111 ∷ 110 ∷ 115 ∷ 111 ∷ 108 ∷ 105 ∷ 100 ∷ 97 ∷ 116 ∷ 101 ∷ [])
    ∷ (112 ∷ 114 ∷ 111 ∷ 109 ∷ 111 ∷ 116 ∷ 101 ∷ [])
    ∷ []

abbrev pub elem_text : Text → List Text → Bool
elem_text s ts = any (λ t. same_text t s) ts

abbrev pub comma : ℕ
comma = 44

abbrev pub is_set {ℓ} : {A : Type ℓ} → Option A → Bool
is_set none = false
is_set (some a) = true

abbrev pub scopes_allow : Text → Text → Bool
scopes_allow [] scope = false
scopes_allow (c ∷ cs) scope = elem_text scope (map strip (split comma (c ∷ cs)))

unfoldable pub has_scope : CapabilityToken → Text → Bool
has_scope t scope = scopes_allow t.scopes scope

-- `expires_at` is never NULL.
unfoldable pub is_valid : ℕ → CapabilityToken → Bool
is_valid now t =
    t.active && not t.quota_exceeded && ltb now t.expires_at && not (is_set t.revoked_at)

unfoldable pub is_quota_exceeded : CapabilityToken → Bool
is_quota_exceeded t =
    leb t.quota_tokens_per_month t.tokens_used_this_month
    || leb t.quota_storage_bytes t.storage_used_bytes

-- `quota and used >= quota`: a quota of 0 is none.
abbrev pub spent : ℕ → ℕ → Bool
spent quota used = not (quota == 0) && leb quota used

-- The checks of validate_token after the lookup.
unfoldable pub is_usable : ℕ → CapabilityToken → Bool
is_usable now t =
    not (is_set t.revoked_at)
    && not (ltb t.expires_at now)
    && not (spent t.quota_tokens_per_month t.tokens_used_this_month)
    && not (spent t.quota_storage_bytes t.storage_used_bytes)
    && not (spent t.quota_requests_per_minute t.requests_this_minute)

unfoldable pub if_usable : ℕ → Option CapabilityToken → Option CapabilityToken
if_usable now none = none
if_usable now (some t) = if is_usable now t then some t else none

unfoldable pub validate_token : ℕ → ℕ → List CapabilityToken → Outcome (Option CapabilityToken)
unfolding if_usable
validate_token value now db = do
  found ← scalar_one_or_none (select (λ t. t.token == value) db)
  ok (if_usable now found)
