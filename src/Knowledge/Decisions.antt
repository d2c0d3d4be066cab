-- ===== src/Knowledge/Decisions.antt =====
-- What follows a decision on a review request.
use mathlib.Core.Path.{subst}
use ninai.Base.{
  ==_refl, Bool, List, Option, Outcome, Text, [], ap, arith, bind-ok, false, find?, http,
  if◌then◌else◌, inl, inr, none, not, ok, ok-injective, raise, raise_if, refl, some, sym, true,
  update, ℕ, ◌&&◌, ◌++◌, ◌==◌, ◌>>=◌, ◌>>◌, ◌∙◌, ◌∷◌, ◌≡◌, ◌⊎◌,
}
use ninai.Knowledge.{
  KnowledgeReviewRequest, KnowledgeReviewStatus, Library, TenantContext, approve_review_request,
  approved, decide, get_item, get_pending, is_pending, is_request, item_for, or_404, publish,
  reject_review_request, rejected, rollback_item, submit_for_review, write_decision,
}
use ninai.Knowledge.Calls.{
  Call, approving, left, left_by, rejecting, rolling_back, run, serve, submitting,
}

-- A row looked up after a change of rows that leaves the lookup's test alone.
find?-update :
    (p q : KnowledgeReviewRequest → Bool) (f : KnowledgeReviewRequest → KnowledgeReviewRequest)
    (xs : List KnowledgeReviewRequest) (x : KnowledgeReviewRequest)
    → ((y : KnowledgeReviewRequest) → p (f y) ≡ p y)
    → find? p xs ≡ some x
    → find? p (update q f xs) ≡ some (if q x then f x else x)
find?-update p q f [] x same e = cc
find?-update p q f (y ∷ ys) x same e = ground (arith, same y, find?-update p q f ys x same)

found_row :
    (o : Option KnowledgeReviewRequest) (q : KnowledgeReviewRequest) → or_404 o ≡ ok q → o ≡ some q
found_row none q e = cc
found_row (some x) q e = ap some (ok-injective e)

passed : (b : Bool) (q r : KnowledgeReviewRequest) → (raise_if b (http 409) >> ok q) ≡ ok r → q ≡ r
passed true q r e = cc
passed false q r e = ok-injective e

pending_row :
    (tenant : TenantContext) (id : ℕ) (db : Library) (q : KnowledgeReviewRequest)
    → get_pending tenant id db ≡ ok q
    → find? (is_request tenant.org_id id) db.requests ≡ some q
pending_row tenant id db q e =
    let step = bind-ok (or_404 (find? (is_request tenant.org_id id) db.requests)) _ q e in
    found_row (find? (is_request tenant.org_id id) db.requests) q
      (step.1 ∙ ap ok (passed (not (is_pending (step.0).status)) step.0 q step.2))

-- The request is there and is no longer pending.
abbrev pub Decided : ℕ → ℕ → List KnowledgeReviewRequest → Type 0
Decided org_id id qs =
    (q : KnowledgeReviewRequest) × (find? (is_request org_id id) qs ≡ some q)
    × (is_pending q.status ≡ false)

-- A decision on any request leaves a decided one decided, and decides its own.
decided_row :
    (status : KnowledgeReviewStatus) (tenant : TenantContext) (comment : Option Text) (now : ℕ)
    (b : Bool) (q : KnowledgeReviewRequest)
    → is_pending status ≡ false
    → (b ≡ true) ⊎ (is_pending q.status ≡ false)
    → is_pending (if b then decide status tenant comment now q else q).status ≡ false
unfolding decide
decided_row status tenant comment now true q p h = p
decided_row status tenant comment now false q p (inl e) = cc
decided_row status tenant comment now false q p (inr e) = e

write_decision-Decided :
    (status : KnowledgeReviewStatus) (tenant : TenantContext) (comment : Option Text)
    (now other org_id id : ℕ) (db : Library) (q : KnowledgeReviewRequest)
    → is_pending status ≡ false
    → find? (is_request org_id id) db.requests ≡ some q
    → ((q.id == other) ≡ true) ⊎ (is_pending q.status ≡ false)
    → Decided org_id id (write_decision status tenant comment now other db).requests
unfolding write_decision decide
write_decision-Decided status tenant comment now other org_id id db q p e h = (
  if q.id == other then decide status tenant comment now q else q,
  find?-update (is_request org_id id) (λ u. u.id == other) (decide status tenant comment now)
      db.requests q (λ y. refl) e,
  decided_row status tenant comment now (q.id == other) q p h,
)

find?-append :
    (p : KnowledgeReviewRequest → Bool) (xs ys : List KnowledgeReviewRequest)
    (x : KnowledgeReviewRequest)
    → find? p xs ≡ some x
    → find? p (xs ++ ys) ≡ some x
find?-append p [] ys x e = cc
find?-append p (y ∷ xs) ys x e = ground (arith, find?-append p xs ys x)

-- Both decisions are refused with 409 where the request is no longer pending.
abbrev pub IsFinal : TenantContext → ℕ → Library → Type 0
IsFinal tenant id db =
    (comment : Option Text) (promotion : Outcome (Unit {0})) (now : ℕ)
    → (approve_review_request tenant id comment promotion now db ≡ raise (http 409))
      × (reject_review_request tenant id comment now db ≡ raise (http 409))

conflict-IsFinal :
    (tenant : TenantContext) (id : ℕ) (db : Library)
    → get_pending tenant id db ≡ raise (http 409)
    → IsFinal tenant id db
unfolding approve_review_request reject_review_request
conflict-IsFinal tenant id db e comment promotion now = (rw e refl, rw e refl)

Decided-IsFinal :
    (tenant : TenantContext) (id : ℕ) (db : Library)
    → Decided tenant.org_id id db.requests
    → IsFinal tenant id db
Decided-IsFinal tenant id db (q, e, p) = conflict-IsFinal tenant id db (rw e (rw p refl))

module _ (org_id id : ℕ) where
  abbrev StaysDecided : Library → Type 0
  StaysDecided db = Decided org_id id db.requests

  chain-Decided :
      {A B : Type 0} (o : Outcome A) (k : A → Outcome (B × Library)) (db : Library)
      → StaysDecided db
      → ((a : A) → StaysDecided (left db (k a)))
      → StaysDecided (left db (o >>= k))
  chain-Decided (ok a) k db h f = f a
  chain-Decided (raise e) k db h f = h

  chain-Decided_by :
      {A : Type 0} (o : Outcome A) (k : A → Outcome Library) (db : Library)
      → StaysDecided db
      → ((a : A) → StaysDecided (left_by db (k a)))
      → StaysDecided (left_by db (o >>= k))
  chain-Decided_by (ok a) k db h f = f a
  chain-Decided_by (raise e) k db h f = h

  again-Decided :
      (status : KnowledgeReviewStatus) (tenant : TenantContext) (comment : Option Text)
      (now other : ℕ) (db : Library)
      → is_pending status ≡ false
      → StaysDecided db
      → StaysDecided (write_decision status tenant comment now other db)
  again-Decided status tenant comment now other db p (q, e, d) =
      write_decision-Decided status tenant comment now other org_id id db q p e (inr d)

  serve-Decided : (db : Library) (c : Call) → StaysDecided db → StaysDecided (serve db c)
  unfolding serve submit_for_review approve_review_request reject_review_request rollback_item
      publish
  serve-Decided db (submitting tenant body) h =
      chain-Decided (item_for tenant body db body.item_id) _ db h
        (λ found. (h.0, find?-append (is_request org_id id) db.requests _ h.0 h.1, h.2))
  serve-Decided db (approving tenant i comment promotion now) h =
      chain-Decided (get_pending tenant i db) _ db h (λ q.
        chain-Decided (get_item tenant.org_id q.item_id db) _ db h (λ item.
          chain-Decided
            (or_404 (
              find? (λ v. v.organization_id == tenant.org_id && v.id == q.item_version_id)
                db.versions))
            _ db h
            (λ v.
              chain-Decided promotion _ db h
                (λ u. again-Decided approved tenant comment now q.id db refl h))))
  serve-Decided db (rejecting tenant i comment now) h =
      chain-Decided (get_pending tenant i db) _ db h
        (λ q. again-Decided rejected tenant comment now q.id db refl h)
  serve-Decided db (rolling_back tenant item_id version_id now) h =
      chain-Decided_by (get_item tenant.org_id item_id db) _ db h (λ i.
        chain-Decided_by
          (or_404 (
            find?
              (λ v.
                v.organization_id == tenant.org_id && v.id == version_id && v.item_id == item_id)
              db.versions))
          _ db h (λ v. h))

  run-Decided : (db : Library) (cs : List Call) → StaysDecided db → StaysDecided (run db cs)
  unfolding run
  run-Decided db [] h = h
  run-Decided db (c ∷ cs) h = run-Decided (serve db c) cs (serve-Decided db c h)

-- After a request is approved, and after any further calls of the service, every reviewer of the
-- organization who approves or rejects it is refused with 409, whatever the arguments.
pub approve_review_request-IsFinal :
    (tenant reviewer : TenantContext) (id : ℕ) (comment : Option Text)
    (promotion : Outcome (Unit {0})) (now : ℕ) (db : Library) (r : KnowledgeReviewRequest × Library)
    (later : List Call)
    → reviewer.org_id ≡ tenant.org_id
    → approve_review_request tenant id comment promotion now db ≡ ok r
    → IsFinal reviewer id (run r.1 later)
unfolding approve_review_request publish
approve_review_request-IsFinal tenant reviewer id comment promotion now db r later same e =
    let step = bind-ok (get_pending tenant id db) _ r e in
    let q = step.0 in
    let item = bind-ok (get_item tenant.org_id q.item_id db) _ r step.2 in
    let version =
      bind-ok
        (or_404 (
          find? (λ v. v.organization_id == tenant.org_id && v.id == q.item_version_id) db.versions))
        _ r item.2 in
    let done = bind-ok promotion _ r version.2 in
    let decided : Decided tenant.org_id id (r.1).requests =
      subst (λ (s : KnowledgeReviewRequest × Library). Decided tenant.org_id id (s.1).requests)
        (ok-injective done.2)
        (write_decision-Decided approved tenant comment now q.id tenant.org_id id db q refl
          (pending_row tenant id db q step.1) (inl (==_refl q.id))) in
    Decided-IsFinal reviewer id (run r.1 later) (
      subst (λ o. Decided o id (run r.1 later).requests) (sym same)
        (run-Decided tenant.org_id id r.1 later decided))
