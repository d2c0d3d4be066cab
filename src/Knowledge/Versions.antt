-- ===== src/Knowledge/Versions.antt =====
-- The numbers of an item's versions.
use ninai.Base.{
  Bool, Bool-cases, List, [], ap, arith, bind-ok, count, count-append, if◌then◌else◌, inl, inr, ok,
  ok-injective, refl, select, sym, ℕ, ◌&&◌, ◌++◌, ◌+◌, ◌<◌, ◌==◌, ◌∷◌, ◌≡◌, ◌≤◌,
}
use ninai.Knowledge.{
  KnowledgeItemVersion, KnowledgeReviewRequest, Library, Submission, TenantContext, is_version_of,
  item_for, last_number, new_version, next_number, submit_for_review,
}

abbrev numbered : ℕ → ℕ → ℕ → KnowledgeItemVersion → Bool
numbered org_id item_id n v = is_version_of org_id item_id v && v.version_number == n

-- No two versions of an item have the same number.
abbrev pub NumbersAreUnique : Library → Type 0
NumbersAreUnique db =
    (org_id item_id n : ℕ)
    → count (λ v. is_version_of org_id item_id v && v.version_number == n) db.versions ≤ 1

-- A number above the last is not taken.
none_above :
    (org_id item_id n : ℕ) (vs : List KnowledgeItemVersion)
    → last_number (select (is_version_of org_id item_id) vs) < n
    → count (λ v. is_version_of org_id item_id v && v.version_number == n) vs ≡ 0
none_above org_id item_id n [] h = refl
none_above org_id item_id n (v ∷ vs) h = ground (arith, none_above org_id item_id n vs)

-- The version that a submission adds.
added :
    (tenant : TenantContext) (body : Submission) (db : Library)
    (r : KnowledgeReviewRequest × Library)
    → submit_for_review tenant body db ≡ ok r
    → (item_id : ℕ) × (r.1.versions ≡ db.versions ++ new_version tenant body item_id db ∷ [])
unfolding submit_for_review
added tenant body db r e =
    let step = bind-ok (item_for tenant body db body.item_id) _ r e in
    (
      (step.0.0).id,
      sym (ap (λ (s : KnowledgeReviewRequest × Library). s.1.versions) (ok-injective step.2)),
    )

same_item_once :
    (org_id item_id n : ℕ) (vs : List KnowledgeItemVersion)
    → count (λ v. is_version_of org_id item_id v && v.version_number == n) vs ≤ 1
    → count (λ v. is_version_of org_id item_id v && v.version_number == n) vs
        + (if last_number (select (is_version_of org_id item_id) vs) + 1 == n then 1 else 0)
      ≤ 1
same_item_once org_id item_id n vs h = ground (arith, none_above org_id item_id n vs)

new_number_once :
    (org_id item_id n o i : ℕ) (vs : List KnowledgeItemVersion)
    → count (λ v. is_version_of org_id item_id v && v.version_number == n) vs ≤ 1
    → count (λ v. is_version_of org_id item_id v && v.version_number == n) vs
        + (if o == org_id && i == item_id && last_number (select (is_version_of o i) vs) + 1 == n
            then 1
            else 0)
      ≤ 1
new_number_once org_id item_id n o i vs h = elim (Bool-cases (o == org_id && i == item_id)) [
  | inl e ↦
      let orgs : o ≡ org_id = ground arith in
      let items : i ≡ item_id = ground arith in
      rw e (rw orgs (rw items (same_item_once org_id item_id n vs h)))
  | inr e ↦ rw e (omega arith)
]

-- Every item stays without two versions of the same number when a submission adds one, to an old
-- item or to a new one.
pub submit_for_review-NumbersAreUnique :
    (tenant : TenantContext) (body : Submission) (db : Library)
    (r : KnowledgeReviewRequest × Library)
    → NumbersAreUnique db
    → submit_for_review tenant body db ≡ ok r
    → NumbersAreUnique r.1
unfolding new_version next_number
submit_for_review-NumbersAreUnique tenant body db r h e =
    let new = added tenant body db r e in
    λ org_id item_id n. rw new.1 (
      rw
        (count-append (λ v. is_version_of org_id item_id v && v.version_number == n) db.versions
          (new_version tenant body new.0 db ∷ []))
        (new_number_once org_id item_id n tenant.org_id new.0 db.versions (h org_id item_id n)))
