-- ===== src/Knowledge/Rollback.antt =====
-- What a rollback publishes.
-- The item that a query finds after an update that leaves the query's test alone.
use ninai.Base.{
  Bool, List, Option, Option-cases, [], ap, arith, find?, find?_fits, http, if◌then◌else◌, inl, inr,
  none, ok, raise, refl, some, true, update, ℕ, ◌&&◌, ◌==◌, ◌∙◌, ◌∷◌, ◌≡◌, ◌⊎◌,
}
use ninai.Knowledge.{
  KnowledgeItem, KnowledgeItemVersion, Library, TenantContext, is_item, publish, rollback_item,
}

find?-item :
    (p q : KnowledgeItem → Bool) (f : KnowledgeItem → KnowledgeItem) (xs : List KnowledgeItem)
    (x : KnowledgeItem)
    → ((y : KnowledgeItem) → p (f y) ≡ p y)
    → find? p xs ≡ some x
    → find? p (update q f xs) ≡ some (if q x then f x else x)
find?-item p q f [] x same e = cc
find?-item p q f (y ∷ ys) x same e = ground (arith, same y, find?-item p q f ys x same)

-- The version of the item that the rollback asks for.
abbrev pub get_version : ℕ → ℕ → ℕ → Library → Option KnowledgeItemVersion
get_version org_id item_id version_id db =
    find? (λ v. v.organization_id == org_id && v.id == version_id && v.item_id == item_id)
      db.versions

abbrev pub published : ℕ → ℕ → KnowledgeItem → KnowledgeItem
published version_id now i = record i {
  is_published = true;
  published_version_id = some version_id;
  published_at = some now;
}

-- The items after a rollback: the one named shows the version, the others are as before.
abbrev pub Shows : TenantContext → ℕ → ℕ → ℕ → Library → Library → Type 0
Shows tenant item_id version_id now db db' =
    (other : ℕ) (i : KnowledgeItem)
    → find? (is_item tenant.org_id other) db.items ≡ some i
    → find? (is_item tenant.org_id other) db'.items
      ≡ some (if other == item_id then published version_id now i else i)

is_item_id : (a b c d : ℕ) → (a == b && c == d) ≡ true → c ≡ d
is_item_id a b c d h = ground arith

rolled_back :
    (tenant : TenantContext) (item_id version_id now : ℕ) (db : Library) (i : KnowledgeItem)
    (v : KnowledgeItemVersion)
    → find? (is_item tenant.org_id item_id) db.items ≡ some i
    → get_version tenant.org_id item_id version_id db ≡ some v
    → rollback_item tenant item_id version_id now db ≡ ok (publish item_id version_id now db)
unfolding rollback_item
rolled_back tenant item_id version_id now db i v found version =
    let same : i.id ≡ item_id =
      is_item_id i.organization_id tenant.org_id i.id item_id
        (find?_fits (is_item tenant.org_id item_id) db.items i found) in
    rw (found, version) (ap (λ n. ok (publish n version_id now db)) same)

shown :
    (tenant : TenantContext) (other item_id version_id now : ℕ) (db : Library) (x : KnowledgeItem)
    → find? (is_item tenant.org_id other) db.items ≡ some x
    → find? (is_item tenant.org_id other) (publish item_id version_id now db).items
      ≡ some (if other == item_id then published version_id now x else x)
unfolding publish
shown tenant other item_id version_id now db x e =
    let same : x.id ≡ other =
      is_item_id x.organization_id tenant.org_id x.id other
        (find?_fits (is_item tenant.org_id other) db.items x e) in
    find?-item (is_item tenant.org_id other) (λ i. i.id == item_id) (published version_id now)
      db.items x (λ y. refl) e
    ∙ ap (λ n. some (if n == item_id then published version_id now x else x)) same

refused_rollback :
    (tenant : TenantContext) (item_id version_id now : ℕ) (db : Library)
    → (find? (is_item tenant.org_id item_id) db.items ≡ none)
      ⊎ (get_version tenant.org_id item_id version_id db ≡ none)
    → rollback_item tenant item_id version_id now db ≡ raise (http 404)
unfolding rollback_item
refused_rollback tenant item_id version_id now db (inl e) = rw e refl
refused_rollback tenant item_id version_id now db (inr e) =
    elim (Option-cases (find? (is_item tenant.org_id item_id) db.items)) [
      | inl f ↦ rw f refl
      | inr (i, f) ↦ rw (f, e) refl
    ]

-- A rollback to a version of an item of the organization publishes it, whatever the review requests
-- say, rejected or pending ones for that version included: the item then shows that version, every
-- other item of the organization is as before, and so are the versions and the review requests.
-- Where the item is not there, or no version of it has the id, the call raises 404.
pub rollback_item-Publishes :
    (tenant : TenantContext) (item_id version_id now : ℕ) (db : Library)
    → ((i : KnowledgeItem) (v : KnowledgeItemVersion)
        → find? (is_item tenant.org_id item_id) db.items ≡ some i
        → get_version tenant.org_id item_id version_id db ≡ some v
        → (db' : Library) × (rollback_item tenant item_id version_id now db ≡ ok db')
          × Shows tenant item_id version_id now db db'
          × (db'.versions ≡ db.versions)
          × (db'.requests ≡ db.requests))
      × ((find? (is_item tenant.org_id item_id) db.items ≡ none)
            ⊎ (get_version tenant.org_id item_id version_id db ≡ none)
          → rollback_item tenant item_id version_id now db ≡ raise (http 404))
unfolding rollback_item publish
rollback_item-Publishes tenant item_id version_id now db = (
  (λ i v found version. (
    publish item_id version_id now db,
    rolled_back tenant item_id version_id now db i v found version,
    (λ other x e. shown tenant other item_id version_id now db x e),
    refl,
    refl,
  )),
  (λ missing. refused_rollback tenant item_id version_id now db missing),
)
