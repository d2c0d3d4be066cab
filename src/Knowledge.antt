-- ===== src/Knowledge.antt =====
-- backend/app/services/knowledge_review_service.py over the tables of models/knowledge_item.py,
-- models/knowledge_item_version.py and models/knowledge_review_request.py. Each call is one
-- transaction; the ids of the rows that it adds are arguments.
pub mod Versions
pub mod Calls
pub mod Decisions
pub mod Rollback
mod Tests
use ninai.Base.{
  Bool, List, Option, Outcome, Text, [], any, false, find?, http, integrity_error, limit, ltb, max,
  none, not, ok, order_by, raise, raise_if, same_text, select, some, true, update, ℕ, ◌&&◌, ◌++◌,
  ◌+◌, ◌==◌, ◌>>=◌, ◌>>◌, ◌∷◌,
}

-- KnowledgeReviewStatus
pub data KnowledgeReviewStatus : Type 0 where
  pending approved rejected : KnowledgeReviewStatus

pub record KnowledgeItem : Type 0 where
  pub id : ℕ
  pub organization_id : ℕ
  pub title : Text
  pub key : Option Text
  pub is_published : Bool
  pub published_version_id : Option ℕ
  pub published_at : Option ℕ

-- KnowledgeItemVersion, without the metadata, the trace id and the provenance, which are stored only.
pub record KnowledgeItemVersion : Type 0 where
  pub id : ℕ
  pub organization_id : ℕ
  pub item_id : ℕ
  pub version_number : ℕ
  pub title : Text
  pub content : Text
  pub created_by_user_id : ℕ

pub record KnowledgeReviewRequest : Type 0 where
  pub id : ℕ
  pub organization_id : ℕ
  pub item_id : ℕ
  pub item_version_id : ℕ
  pub status : KnowledgeReviewStatus
  pub requested_by_user_id : ℕ
  pub reviewed_by_user_id : Option ℕ
  pub reviewed_at : Option ℕ
  pub decision_comment : Option Text

pub record Library : Type 0 where
  pub items : List KnowledgeItem
  pub versions : List KnowledgeItemVersion
  pub requests : List KnowledgeReviewRequest

-- Of TenantContext, what the service reads.
pub record TenantContext : Type 0 where
  pub user_id : ℕ
  pub org_id : ℕ

-- KnowledgeSubmissionCreate, with the ids that new rows get.
pub record Submission : Type 0 where
  pub item_id : Option ℕ
  pub title : Text
  pub key : Option Text
  pub content : Text
  pub new_item_id : ℕ
  pub new_version_id : ℕ
  pub new_request_id : ℕ

abbrev pub is_pending : KnowledgeReviewStatus → Bool
is_pending pending = true
is_pending s = false

-- `if not row: raise HTTPException(404)`
abbrev pub or_404 {ℓ} : {A : Type ℓ} → Option A → Outcome A
or_404 none = raise (http 404)
or_404 (some a) = ok a

abbrev pub is_item : ℕ → ℕ → KnowledgeItem → Bool
is_item org_id id i = i.organization_id == org_id && i.id == id

abbrev pub is_request : ℕ → ℕ → KnowledgeReviewRequest → Bool
is_request org_id id q = q.organization_id == org_id && q.id == id

-- `db.scalar`: the first row, if any.
abbrev pub get_item : ℕ → ℕ → Library → Outcome KnowledgeItem
get_item org_id id db = or_404 (find? (is_item org_id id) db.items)

abbrev pub is_version_of : ℕ → ℕ → KnowledgeItemVersion → Bool
is_version_of org_id item_id v = v.organization_id == org_id && v.item_id == item_id

-- `func.coalesce(func.max(version_number), 0)`
abbrev pub last_number : List KnowledgeItemVersion → ℕ
last_number [] = 0
last_number (v ∷ vs) = max v.version_number (last_number vs)

unfoldable pub next_number : ℕ → ℕ → Library → ℕ
next_number org_id item_id db = last_number (select (is_version_of org_id item_id) db.versions) + 1

unfoldable pub new_item : TenantContext → Submission → KnowledgeItem
new_item tenant body = record {
  id = body.new_item_id;
  organization_id = tenant.org_id;
  title = body.title;
  key = body.key;
  is_published = false;
  published_version_id = none;
  published_at = none;
}

-- ux_knowledge_items_org_key: an organization has a key once; NULLs do not collide.
abbrev pub same_key : Option Text → Option Text → Bool
same_key (some k) (some l) = same_text k l
same_key k l = false

abbrev pub key_taken : TenantContext → Option Text → Library → Bool
key_taken tenant key db =
    any (λ i. i.organization_id == tenant.org_id && same_key i.key key) db.items

-- The item of a submission, and the items with it.
unfoldable pub item_for :
    TenantContext → Submission → Library → Option ℕ → Outcome (KnowledgeItem × List KnowledgeItem)
unfolding new_item
item_for tenant body db (some id) = get_item tenant.org_id id db >>= λ i. ok (i, db.items)
item_for tenant body db none =
    raise_if (key_taken tenant body.key db) integrity_error
    >> ok (new_item tenant body, db.items ++ new_item tenant body ∷ [])

unfoldable pub new_version : TenantContext → Submission → ℕ → Library → KnowledgeItemVersion
new_version tenant body item_id db = record {
  id = body.new_version_id;
  organization_id = tenant.org_id;
  item_id = item_id;
  version_number = next_number tenant.org_id item_id db;
  title = body.title;
  content = body.content;
  created_by_user_id = tenant.user_id;
}

unfoldable pub new_request : TenantContext → Submission → ℕ → KnowledgeReviewRequest
new_request tenant body item_id = record {
  id = body.new_request_id;
  organization_id = tenant.org_id;
  item_id = item_id;
  item_version_id = body.new_version_id;
  status = pending;
  requested_by_user_id = tenant.user_id;
  reviewed_by_user_id = none;
  reviewed_at = none;
  decision_comment = none;
}

unfoldable pub submit_for_review :
    TenantContext → Submission → Library → Outcome (KnowledgeReviewRequest × Library)
unfolding item_for new_version new_request
submit_for_review tenant body db = do
  found ← item_for tenant body db body.item_id
  let q = new_request tenant body (found.0).id
  let v = new_version tenant body (found.0).id db
  ok (
    q,
    record { items = found.1; versions = db.versions ++ v ∷ []; requests = db.requests ++ q ∷ [] },
  )

unfoldable pub decide :
    KnowledgeReviewStatus
    → TenantContext
    → Option Text
    → ℕ
    → KnowledgeReviewRequest
    → KnowledgeReviewRequest
decide status tenant comment now q = record q {
  status = status;
  reviewed_by_user_id = some tenant.user_id;
  reviewed_at = some now;
  decision_comment = comment;
}

-- A changed request is written back to the row of its primary key.
unfoldable pub write_decision :
    KnowledgeReviewStatus → TenantContext → Option Text → ℕ → ℕ → Library → Library
write_decision status tenant comment now id db = record db {
  requests = update (λ q. q.id == id) (decide status tenant comment now) db.requests;
}

unfoldable pub publish : ℕ → ℕ → ℕ → Library → Library
publish item_id version_id now db = record db {
  items =
      update (λ i. i.id == item_id)
        (λ i. record i {
          is_published = true;
          published_version_id = some version_id;
          published_at = some now;
        })
        db.items;
}

-- The request, if it is there and still pending.
abbrev pub get_pending : TenantContext → ℕ → Library → Outcome KnowledgeReviewRequest
get_pending tenant id db = do
  q ← or_404 (find? (is_request tenant.org_id id) db.requests)
  raise_if (not (is_pending q.status)) (http 409)
  ok q

-- `promotion` is what the memory and topic services do when promote_to_memory asks for them, and
-- `ok tt` when it does not: it leaves these three tables alone, or raises.
unfoldable pub approve_review_request :
    TenantContext
    → ℕ
    → Option Text
    → Outcome (Unit {0})
    → ℕ
    → Library
    → Outcome (KnowledgeReviewRequest × Library)
approve_review_request tenant id comment promotion now db = do
  q ← get_pending tenant id db
  i ← get_item tenant.org_id q.item_id db
  v ←
      or_404
        (find? (λ v. v.organization_id == tenant.org_id && v.id == q.item_version_id) db.versions)
  done ← promotion
  ok (
    decide approved tenant comment now q,
    publish i.id q.item_version_id now (write_decision approved tenant comment now q.id db),
  )

unfoldable pub reject_review_request :
    TenantContext → ℕ → Option Text → ℕ → Library → Outcome (KnowledgeReviewRequest × Library)
reject_review_request tenant id comment now db = do
  q ← get_pending tenant id db
  ok (decide rejected tenant comment now q, write_decision rejected tenant comment now q.id db)

unfoldable pub rollback_item : TenantContext → ℕ → ℕ → ℕ → Library → Outcome Library
rollback_item tenant item_id version_id now db = do
  i ← get_item tenant.org_id item_id db
  v ← or_404 (
      find? (λ v. v.organization_id == tenant.org_id && v.id == version_id && v.item_id == item_id)
        db.versions)
  ok (publish i.id version_id now db)

-- ORDER BY version_number DESC LIMIT
unfoldable pub list_item_versions : TenantContext → ℕ → ℕ → Library → List KnowledgeItemVersion
list_item_versions tenant item_id n db = limit n (
    order_by (λ a b. ltb b.version_number a.version_number)
      (select (is_version_of tenant.org_id item_id) db.versions))
