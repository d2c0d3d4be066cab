-- ===== src/CapabilityToken/Revocation.antt =====
-- What validation accepts, and what revocation and quotas do to it.
use mathlib.Core.Path.{subst}
use ninai.Base.{
  ==_iff, All, All-Mem, All-map, Bool, Bool-cases, List, Mem, Option, Outcome, [], arith, false,
  if◌then◌else◌, inl, inr, ltb, none, not, ok, refl, scalar_one_or_none, select, select-All, some,
  true, update-All, ℕ, ◌&&◌, ◌<◌, ◌==◌, ◌>>=◌, ◌∷◌, ◌≡◌, ◌≤◌, ◌⊎◌,
}
use ninai.CapabilityToken.{CapabilityToken, if_usable, is_set, is_usable, spent, validate_token}
use ninai.CapabilityToken.Service.{Request, issuing, save, with_quotas}

-- What a token that passes has: the value asked for, no revocation, time left, and no quota other
-- than 0 that is used up.
pub record Passes (value now : ℕ) (t : CapabilityToken) : Type 0 where
  pub same_value : t.token ≡ value
  pub not_revoked : is_set t.revoked_at ≡ false
  pub not_expired : now ≤ t.expires_at
  pub tokens_left :
      (t.quota_tokens_per_month ≡ 0) ⊎ (t.tokens_used_this_month < t.quota_tokens_per_month)
  pub storage_left : (t.quota_storage_bytes ≡ 0) ⊎ (t.storage_used_bytes < t.quota_storage_bytes)
  pub requests_left :
      (t.quota_requests_per_minute ≡ 0) ⊎ (t.requests_this_minute < t.quota_requests_per_minute)

unspent : (quota used : ℕ) → not (spent quota used) ≡ true → (quota ≡ 0) ⊎ (used < quota)
unspent quota used h = elim (Bool-cases (quota == 0)) [
  | inl e ↦ inl ((==_iff quota 0).0 e)
  | inr e ↦ inr (ground arith)
]

all_five :
    (a b c d e : Bool)
    → (a && b && c && d && e) ≡ true
    → (a ≡ true) × (b ≡ true) × (c ≡ true) × (d ≡ true) × (e ≡ true)
all_five a b c d e h = (ground arith, ground arith, ground arith, ground arith, ground arith)

usable-Passes :
    (value now : ℕ) (t : CapabilityToken)
    → t.token ≡ value
    → is_usable now t ≡ true
    → Passes value now t
unfolding is_usable
usable-Passes value now t v h =
    let five =
      all_five (not (is_set t.revoked_at)) (not (ltb t.expires_at now))
        (not (spent t.quota_tokens_per_month t.tokens_used_this_month))
        (not (spent t.quota_storage_bytes t.storage_used_bytes))
        (not (spent t.quota_requests_per_minute t.requests_this_minute)) h in
    record {
      same_value = v;
      not_revoked = not_true (is_set t.revoked_at) five.0;
      not_expired = not_later now t.expires_at five.1;
      tokens_left = unspent t.quota_tokens_per_month t.tokens_used_this_month five.2;
      storage_left = unspent t.quota_storage_bytes t.storage_used_bytes five.3;
      requests_left = unspent t.quota_requests_per_minute t.requests_this_minute five.4;
    }
  where
    not_true : (b : Bool) → not b ≡ true → b ≡ false
    not_true b h = ground arith

    not_later : (now last : ℕ) → not (ltb last now) ≡ true → now ≤ last
    not_later now last h = ground arith

picked :
    (b : Bool) (u t : CapabilityToken)
    → Path (Outcome (Option CapabilityToken)) (ok (if b then some u else none)) (ok (some t))
    → (b ≡ true) × (u ≡ t)
picked true u t e = (refl, cc)
picked false u t e = cc

-- A query's only row is one of the rows that fit.
pub scalar-row :
    (P : CapabilityToken → Type 0) (rows : List CapabilityToken) (t : CapabilityToken) (now : ℕ)
    → (scalar_one_or_none rows >>= λ row. ok (if_usable now row)) ≡ ok (some t)
    → All P rows
    → P t × (is_usable now t ≡ true)
unfolding if_usable
scalar-row P [] t now e h = cc
scalar-row P (u ∷ []) t now e (p, ps) =
    let one = picked (is_usable now u) u t e in
    subst (λ w. P w × (is_usable now w ≡ true)) one.1 (p, one.0)
scalar-row P (u ∷ v ∷ l) t now e h = cc

-- A token that validation returns carries the value asked for, is not revoked, has not expired and
-- has used up none of its quotas, where a quota of 0 counts as no quota.
pub validate_token-Passes :
    (value now : ℕ) (db : List CapabilityToken) (t : CapabilityToken)
    → validate_token value now db ≡ ok (some t)
    → Passes value now t
unfolding validate_token
validate_token-Passes value now db t e =
    let row =
      scalar-row (λ u. u.token ≡ value) (select (λ u. u.token == value) db) t now e
        (All-map (λ u b. (==_iff u.token value).0 b.1) (select (λ u. u.token == value) db)
          (select-All (λ u. u.token == value) (λ u. Mem u db) db (All-Mem db))) in
    usable-Passes value now t row.0 row.1

-- With all three quotas set to 0 a token passes whatever it has used, until it is revoked or
-- expires.
pub zero_quotas-is_usable :
    (now : ℕ) (t : CapabilityToken)
    → is_usable now (with_quotas (some 0) (some 0) (some 0) t)
      ≡ not (is_set t.revoked_at) && not (ltb t.expires_at now)
unfolding is_usable with_quotas
zero_quotas-is_usable now t = ground arith

-- Every row with the id is revoked.
abbrev pub AreRevoked : ℕ → List CapabilityToken → Type 0
AreRevoked id db = All (λ t. (t.id == id) ≡ true → is_set t.revoked_at ≡ true) db

abbrev pub IssuesOther : ℕ → Request → Type 0
IssuesOther id (issuing org_id n now) = (n.id == id) ≡ false
IssuesOther id r = Unit

pub save-AreRevoked :
    (id : ℕ) (t : CapabilityToken) (db : List CapabilityToken)
    → ((t.id == id) ≡ true → is_set t.revoked_at ≡ true)
    → AreRevoked id db
    → AreRevoked id (save t db)
save-AreRevoked id t db v h =
    update-All (λ u. u.id == t.id) (λ u. t) (λ u. (u.id == id) ≡ true → is_set u.revoked_at ≡ true)
      db (λ u w e. v) h
