-- ===== src/CapabilityToken/Lifecycle.antt =====
-- What later calls do to a revoked token.
use mathlib.Core.Path.{subst}
use ninai.Base.{
  All, All-Mem, All-map, Bool, Bool-cases, Exception, List, Mem, Outcome, Text, [], append-All,
  arith, false, false_of_true, inl, inr, multiple_results, ok, raise, raise_if, refl,
  scalar_one_or_none, select, select-All, some, true, value_error, ℕ, ◌&&◌, ◌++◌, ◌==◌, ◌>>=◌, ◌>>◌,
  ◌∷◌, ◌≡◌,
}
use ninai.CapabilityToken.{CapabilityToken, is_set, validate_token}
use ninai.CapabilityToken.Revocation.{
  AreRevoked, IssuesOther, save-AreRevoked, scalar-row, validate_token-Passes,
}
use ninai.CapabilityToken.Service.{
  Request, check_scopes, committed, found, get_token, issue_token, issued, issuing, own_rows,
  revoke_token, revoked, revoking, run, save, serve, update_quota, updating, with_quotas,
}

and_left : (a b : Bool) → (a && b) ≡ true → a ≡ true
and_left a b h = ground arith

-- A step on the only row that a query returns.
row-AreRevoked :
    (id : ℕ) (P : CapabilityToken → Type 0) (db rows : List CapabilityToken)
    (k : CapabilityToken → Outcome (CapabilityToken × List CapabilityToken))
    → All P rows
    → ((t : CapabilityToken) → P t → AreRevoked id (committed db (k t)))
    → AreRevoked id db
    → AreRevoked id (committed db (scalar_one_or_none rows >>= λ row. (found row >>= k)))
row-AreRevoked id P db [] k ps step h = h
row-AreRevoked id P db (t ∷ []) k ps step h = step t ps.0
row-AreRevoked id P db (t ∷ u ∷ l) k ps step h = h

guarded-AreRevoked :
    (id : ℕ) (b : Bool) (db : List CapabilityToken) (t : CapabilityToken)
    → ((t.id == id) ≡ true → is_set t.revoked_at ≡ true)
    → AreRevoked id db
    → AreRevoked id (committed db (raise_if b value_error >> ok (t, save t db)))
guarded-AreRevoked id true db t v h = h
guarded-AreRevoked id false db t v h = save-AreRevoked id t db v h

issued-AreRevoked :
    (id : ℕ) (o : Outcome (Unit {0})) (db : List CapabilityToken) (t : CapabilityToken)
    → (t.id == id) ≡ false
    → AreRevoked id db
    → AreRevoked id (committed db (o >> ok (t, db ++ t ∷ [])))
issued-AreRevoked id (raise e) db t other h = h
issued-AreRevoked id (ok u) db t other h =
    append-All (λ w. (w.id == id) ≡ true → is_set w.revoked_at ≡ true) db (t ∷ []) h
      ((λ same. false_of_true other same), tt)

module _ (id : ℕ) where
  own_rows-All :
      (org_id other : ℕ) (db : List CapabilityToken)
      → AreRevoked id db
      → All (λ t. (t.id == id) ≡ true → is_set t.revoked_at ≡ true) (own_rows org_id other db)
  own_rows-All org_id other db h =
      All-map (λ t b. b.0) (own_rows org_id other db)
        (select-All (λ t. t.id == other && t.organization_id == org_id)
          (λ t. (t.id == id) ≡ true → is_set t.revoked_at ≡ true) db h)

  serve-AreRevoked :
      (db : List CapabilityToken) (r : Request)
      → IssuesOther id r
      → AreRevoked id db
      → AreRevoked id (serve db r)
  unfolding serve issue_token issued revoke_token revoked get_token update_quota with_quotas
  serve-AreRevoked db (issuing org_id n now) other h =
      issued-AreRevoked id (check_scopes n.scopes) db (issued org_id n now) other h
  serve-AreRevoked db (revoking org_id i reason now) other h =
      row-AreRevoked id (λ t. (t.id == id) ≡ true → is_set t.revoked_at ≡ true) db
        (own_rows org_id i db) _ (own_rows-All org_id i db h)
        (λ t v. guarded-AreRevoked id (is_set t.revoked_at) db (revoked reason now t) (λ e. refl) h)
        h
  serve-AreRevoked db (updating org_id i tokens storage requests) other h =
      row-AreRevoked id (λ t. (t.id == id) ≡ true → is_set t.revoked_at ≡ true) db
        (own_rows org_id i db) _ (own_rows-All org_id i db h)
        (λ t v. save-AreRevoked id (with_quotas tokens storage requests t) db v h) h

  run-AreRevoked :
      (db : List CapabilityToken) (rs : List Request)
      → All (IssuesOther id) rs
      → AreRevoked id db
      → AreRevoked id (run db rs)
  unfolding run
  run-AreRevoked db [] others h = h
  run-AreRevoked db (r ∷ rs) (other, others) h =
      run-AreRevoked (serve db r) rs others (serve-AreRevoked db r other h)

  -- What a revocation leaves.
  save_revoked :
      (t : CapabilityToken) (db : List CapabilityToken)
      → (t.id == id) ≡ true
      → is_set t.revoked_at ≡ true
      → AreRevoked id (save t db)
  save_revoked t [] i v = tt
  save_revoked t (u ∷ us) i v = elim (Bool-cases (u.id == t.id)) [
    | inl e ↦ rw e ((λ s. v), save_revoked t us i v)
    | inr e ↦ rw e ((λ s. false_of_true e (same_ids u.id t.id id s i)), save_revoked t us i v)
  ]
    where
      same_ids : (a b c : ℕ) → (a == c) ≡ true → (b == c) ≡ true → (a == b) ≡ true
      same_ids a b c h k = ground arith

  after_guard :
      (b : Bool) (t : CapabilityToken) (db : List CapabilityToken)
      (r : CapabilityToken × List CapabilityToken)
      → Path
          (Outcome (CapabilityToken × List CapabilityToken))
          (raise_if b value_error >> ok (t, save t db))
          (ok r)
      → AreRevoked id (save t db)
      → AreRevoked id r.1
  after_guard true t db r e h = cc
  after_guard false t db r e h =
      let same : (t, save t db) ≡ r = cc in subst (λ s. AreRevoked id s.1) same h

  revoke_row :
      (org_id : ℕ) (reason : Text) (now : ℕ) (db rows : List CapabilityToken)
      (r : CapabilityToken × List CapabilityToken)
      → All (λ t. (t.id == id) ≡ true) rows
      → (scalar_one_or_none rows >>= λ row.
          (found row >>= λ t.
          (raise_if (is_set t.revoked_at) value_error
            >> ok (revoked reason now t, save (revoked reason now t) db))))
        ≡ ok r
      → AreRevoked id r.1
  unfolding revoked
  revoke_row org_id reason now db [] r ids e = cc
  revoke_row org_id reason now db (t ∷ []) r ids e =
      after_guard (is_set t.revoked_at) (revoked reason now t) db r e
        (save_revoked (revoked reason now t) db ids.0 refl)
  revoke_row org_id reason now db (t ∷ u ∷ l) r ids e = cc

  revoke_token-AreRevoked :
      (org_id : ℕ) (reason : Text) (now : ℕ) (db : List CapabilityToken)
      (r : CapabilityToken × List CapabilityToken)
      → revoke_token org_id id reason now db ≡ ok r
      → AreRevoked id r.1
  unfolding revoke_token get_token
  revoke_token-AreRevoked org_id reason now db r e =
      revoke_row org_id reason now db (own_rows org_id id db) r
        (All-map (λ t b. and_left (t.id == id) (t.organization_id == org_id) b.1)
          (own_rows org_id id db)
          (select-All (λ t. t.id == id && t.organization_id == org_id) (λ t. Mem t db) db
            (All-Mem db)))
        e

-- Once a revocation has succeeded, validation never again returns a token with that id, whatever
-- calls follow, as long as none of them issues a token with the same id.
pub revoked_never_validates :
    (org_id id : ℕ) (reason : Text) (at : ℕ) (db : List CapabilityToken)
    (r : CapabilityToken × List CapabilityToken)
    → revoke_token org_id id reason at db ≡ ok r
    → (rs : List Request) → All (IssuesOther id) rs
    → (value now : ℕ) (t : CapabilityToken) → validate_token value now (run r.1 rs) ≡ ok (some t)
    → (t.id == id) ≡ false
unfolding validate_token
revoked_never_validates org_id id reason at db r e rs others value now t v =
    let rows = select (λ u. u.token == value) (run r.1 rs) in
    let kept =
      run-AreRevoked id r.1 rs others (revoke_token-AreRevoked id org_id reason at db r e) in
    let row =
      scalar-row (λ u. (u.id == id) ≡ true → is_set u.revoked_at ≡ true) rows t now v
        (All-map (λ u b. b.0) rows
          (select-All (λ u. u.token == value)
            (λ u. (u.id == id) ≡ true → is_set u.revoked_at ≡ true) (run r.1 rs) kept)) in
    elim (Bool-cases (t.id == id)) [
      | inl same ↦
          false_of_true (validate_token-Passes value now (run r.1 rs) t v).not_revoked (row.0 same)
      | inr other ↦ other
    ]

-- Rows that are revoked already are not revoked again.
again :
    {A : Type 0} (rows : List CapabilityToken) (k : CapabilityToken → Outcome A)
    → All (λ t. is_set t.revoked_at ≡ true) rows
    → (e : Exception) × ((scalar_one_or_none rows >>= λ row.
          (found row >>= λ t. (raise_if (is_set t.revoked_at) value_error >> k t)))
        ≡ raise e)
again [] k h = (value_error, refl)
again (t ∷ []) k h = (value_error, rw h.0 refl)
again (t ∷ u ∷ l) k h = (multiple_results, refl)

-- A second revocation of a token raises.
pub revoke_token-again :
    (org_id id : ℕ) (reason : Text) (at : ℕ) (db : List CapabilityToken)
    (r : CapabilityToken × List CapabilityToken)
    → revoke_token org_id id reason at db ≡ ok r
    → (other_reason : Text) (later : ℕ)
    → (e : Exception) × (revoke_token org_id id other_reason later r.1 ≡ raise e)
unfolding revoke_token get_token
revoke_token-again org_id id reason at db r e other_reason later =
    let rows = own_rows org_id id r.1 in
    again rows (λ t. ok (revoked other_reason later t, save (revoked other_reason later t) r.1))
      (All-map (λ t b. b.0 (and_left (t.id == id) (t.organization_id == org_id) b.1)) rows
        (select-All (λ t. t.id == id && t.organization_id == org_id)
          (λ t. (t.id == id) ≡ true → is_set t.revoked_at ≡ true) r.1
          (revoke_token-AreRevoked id org_id reason at db r e)))
