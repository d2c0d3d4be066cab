-- ===== src/CapabilityToken/Service.antt =====
-- The operations of backend/app/services/capability_token_service.py that change the table. The
-- audit events that follow each change are left out.
use ninai.Base.{
  Bool, List, Option, Outcome, Text, [], false, if◌then◌else◌, join, none, not, ok, raise, raise_if,
  scalar_one_or_none, select, some, true, update, value_error, ℕ, ◌&&◌, ◌*◌, ◌++◌, ◌+◌, ◌==◌, ◌>>=◌,
  ◌>>◌, ◌||◌, ◌∷◌,
}
use ninai.CapabilityToken.{CapabilityToken, comma, elem_text, is_set, valid_scopes}

-- `max_tokens_per_month or 1_000_000`: 0 is taken for absent.
abbrev pub or_default : Option ℕ → ℕ → ℕ
or_default none d = d
or_default (some n) d = if n == 0 then d else n

-- The arguments of issue_token, with the id and the token value that it draws.
pub record NewToken : Type 0 where
  pub id : ℕ
  pub token : ℕ
  pub scopes : List Text
  pub session_id : Option ℕ
  pub ttl_seconds : ℕ
  pub max_tokens_per_month : Option ℕ
  pub max_storage_bytes : Option ℕ
  pub max_requests_per_minute : Option ℕ

unfoldable pub issued : ℕ → NewToken → ℕ → CapabilityToken
issued org_id n now = record {
  id = n.id;
  token = n.token;
  organization_id = org_id;
  session_id = n.session_id;
  scopes = join comma n.scopes;
  quota_tokens_per_month = or_default n.max_tokens_per_month 1000000;
  quota_storage_bytes = or_default n.max_storage_bytes 104857600;
  quota_requests_per_minute = or_default n.max_requests_per_minute 100;
  tokens_used_this_month = 0;
  storage_used_bytes = 0;
  requests_this_minute = 0;
  active = true;
  quota_exceeded = false;
  revocation_reason = none;
  revoked_at = none;
  expires_at = now + n.ttl_seconds * 1000000;
}

-- The first scope that is not valid ends the call.
unfoldable pub check_scopes : List Text → Outcome (Unit {0})
check_scopes [] = ok tt
check_scopes (s ∷ ss) = raise_if (not (elem_text s valid_scopes)) value_error >> check_scopes ss

unfoldable pub issue_token :
    ℕ → NewToken → ℕ → List CapabilityToken → Outcome (CapabilityToken × List CapabilityToken)
unfolding check_scopes issued
issue_token org_id n now db =
    check_scopes n.scopes >> ok (issued org_id n now, db ++ issued org_id n now ∷ [])

-- get_token, and the same query in revoke_token
abbrev pub own_rows : ℕ → ℕ → List CapabilityToken → List CapabilityToken
own_rows org_id id db = select (λ t. t.id == id && t.organization_id == org_id) db

unfoldable pub get_token : ℕ → ℕ → List CapabilityToken → Outcome (Option CapabilityToken)
get_token org_id id db = scalar_one_or_none (own_rows org_id id db)

abbrev pub found : Option CapabilityToken → Outcome CapabilityToken
found none = raise value_error
found (some t) = ok t

-- A changed object is written back to the row of its primary key.
abbrev pub save : CapabilityToken → List CapabilityToken → List CapabilityToken
save t db = update (λ u. u.id == t.id) (λ u. t) db

unfoldable pub revoked : Text → ℕ → CapabilityToken → CapabilityToken
revoked reason now t = record t { revoked_at = some now; revocation_reason = some reason }

unfoldable pub revoke_token :
    ℕ → ℕ → Text → ℕ → List CapabilityToken → Outcome (CapabilityToken × List CapabilityToken)
unfolding get_token revoked
revoke_token org_id id reason now db = do
  row ← get_token org_id id db
  t ← found row
  raise_if (is_set t.revoked_at) value_error
  ok (revoked reason now t, save (revoked reason now t) db)

unfoldable pub list_tokens : ℕ → Bool → List CapabilityToken → List CapabilityToken
list_tokens org_id include_revoked db =
    select (λ t. t.organization_id == org_id && (include_revoked || not (is_set t.revoked_at))) db

abbrev pub changed : Option ℕ → ℕ → ℕ
changed none n = n
changed (some m) n = m

unfoldable pub with_quotas : Option ℕ → Option ℕ → Option ℕ → CapabilityToken → CapabilityToken
with_quotas tokens storage requests t = record t {
  quota_tokens_per_month = changed tokens t.quota_tokens_per_month;
  quota_storage_bytes = changed storage t.quota_storage_bytes;
  quota_requests_per_minute = changed requests t.quota_requests_per_minute;
}

unfoldable pub update_quota :
    ℕ
    → ℕ
    → Option ℕ
    → Option ℕ
    → Option ℕ
    → List CapabilityToken
    → Outcome (CapabilityToken × List CapabilityToken)
unfolding get_token with_quotas
update_quota org_id id tokens storage requests db = do
  row ← get_token org_id id db
  t ← found row
  let t' = with_quotas tokens storage requests t
  ok (t', save t' db)

-- The calls that change the table; one that raises changes nothing.
pub data Request : Type 0 where
  issuing : ℕ → NewToken → ℕ → Request
  revoking : ℕ → ℕ → Text → ℕ → Request
  updating : ℕ → ℕ → Option ℕ → Option ℕ → Option ℕ → Request

abbrev pub committed :
    List CapabilityToken → Outcome (CapabilityToken × List CapabilityToken) → List CapabilityToken
committed db (ok r) = r.1
committed db (raise e) = db

unfoldable pub serve : List CapabilityToken → Request → List CapabilityToken
serve db (issuing org_id n now) = committed db (issue_token org_id n now db)
serve db (revoking org_id id reason now) = committed db (revoke_token org_id id reason now db)
serve db (updating org_id id tokens storage requests) =
    committed db (update_quota org_id id tokens storage requests db)

unfoldable pub run : List CapabilityToken → List Request → List CapabilityToken
run db [] = db
run db (r ∷ rs) = run (serve db r) rs
