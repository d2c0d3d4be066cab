-- ===== src/Knowledge/Calls.antt =====
-- The calls of backend/app/services/knowledge_review_service.py that change the tables, as steps.
use ninai.Base.{List, Option, Outcome, Text, [], ok, raise, ℕ, ◌∷◌}
use ninai.Knowledge.{
  Library, Submission, TenantContext, approve_review_request, reject_review_request, rollback_item,
  submit_for_review,
}

pub data Call : Type 0 where
  submitting : TenantContext → Submission → Call
  approving : TenantContext → ℕ → Option Text → Outcome (Unit {0}) → ℕ → Call
  rejecting : TenantContext → ℕ → Option Text → ℕ → Call
  rolling_back : TenantContext → ℕ → ℕ → ℕ → Call

-- A call that raises is rolled back.
abbrev pub left {ℓ} : {A : Type ℓ} → Library → Outcome (A × Library) → Library
left db (ok r) = r.1
left db (raise e) = db

abbrev pub left_by : Library → Outcome Library → Library
left_by db (ok r) = r
left_by db (raise e) = db

unfoldable pub serve : Library → Call → Library
serve db (submitting tenant body) = left db (submit_for_review tenant body db)
serve db (approving tenant id comment promotion now) =
    left db (approve_review_request tenant id comment promotion now db)
serve db (rejecting tenant id comment now) =
    left db (reject_review_request tenant id comment now db)
serve db (rolling_back tenant item_id version_id now) =
    left_by db (rollback_item tenant item_id version_id now db)

unfoldable pub run : Library → List Call → Library
run db [] = db
run db (c ∷ cs) = run (serve db c) cs
