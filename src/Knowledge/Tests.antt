-- ===== src/Knowledge/Tests.antt =====
-- The theorems at concrete inputs.
use ninai.Base.{[], arith, find?, http, none, ok, raise, refl, some, ◌∷◌, ◌≡◌, ◌≤◌, ◌⊎◌}
use ninai.Knowledge.{
  KnowledgeItem, KnowledgeItemVersion, Library, Submission, TenantContext, approve_review_request,
  approved, decide, is_item, item_for, new_item, new_request, new_version, publish, rejected,
  rollback_item, submit_for_review, write_decision,
}
use ninai.Knowledge.Calls.{rejecting, rolling_back, run}
use ninai.Knowledge.Decisions.{IsFinal, approve_review_request-IsFinal}
use ninai.Knowledge.Rollback.{Shows, get_version, rollback_item-Publishes}
use ninai.Knowledge.Versions.{NumbersAreUnique, submit_for_review-NumbersAreUnique}

abbrev reviewer : TenantContext
reviewer = record { user_id = 7; org_id = 1 }

abbrev runbook : Submission
runbook = record {
  item_id = none;
  title = 114 ∷ [];
  key = none;
  content = 98 ∷ [];
  new_item_id = 10;
  new_version_id = 20;
  new_request_id = 30;
}

abbrev nothing : Library
nothing = record { items = []; versions = []; requests = [] }

abbrev submitted : Library
submitted = record {
  items = new_item reviewer runbook ∷ [];
  versions = new_version reviewer runbook 10 nothing ∷ [];
  requests = new_request reviewer runbook 10 ∷ [];
}

submit_runbook :
    submit_for_review reviewer runbook nothing ≡ ok (new_request reviewer runbook 10, submitted)
unfolding submit_for_review item_for new_item
submit_runbook = refl

-- A rejected version is published by a rollback.
abbrev after_rejection : Library
after_rejection = write_decision rejected reviewer none 5 30 submitted

rollback_publishes_rejected :
    rollback_item reviewer 10 20 6 after_rejection ≡ ok (publish 10 20 6 after_rejection)
unfolding rollback_item write_decision new_item new_version
rollback_publishes_rejected = refl

submit_for_review-NumbersAreUnique_example : NumbersAreUnique submitted
submit_for_review-NumbersAreUnique_example =
    submit_for_review-NumbersAreUnique reviewer runbook nothing
      (new_request reviewer runbook 10, submitted) (λ org_id item_id n. none_numbered)
      submit_runbook
  where
    none_numbered : 0 ≤ 1
    none_numbered = omega arith

approve_review_request-IsFinal_example :
    IsFinal
      (record reviewer { user_id = 8 })
      30
      (run
        (publish 10 20 5 (write_decision approved reviewer none 5 30 submitted))
        (rejecting reviewer 30 none 6 ∷ rolling_back reviewer 10 20 7 ∷ []))
unfolding approve_review_request decide new_request new_item new_version
approve_review_request-IsFinal_example =
    approve_review_request-IsFinal reviewer (record reviewer { user_id = 8 }) 30 none (ok tt) 5
      submitted
      (
        decide approved reviewer none 5 (new_request reviewer runbook 10),
        publish 10 20 5 (write_decision approved reviewer none 5 30 submitted),
      )
      (rejecting reviewer 30 none 6 ∷ rolling_back reviewer 10 20 7 ∷ []) refl refl

rollback_item-Publishes_example :
    ((i : KnowledgeItem) (v : KnowledgeItemVersion)
      → find? (is_item 1 10) after_rejection.items ≡ some i
      → get_version 1 10 20 after_rejection ≡ some v
      → (db' : Library) × (rollback_item reviewer 10 20 6 after_rejection ≡ ok db')
        × Shows reviewer 10 20 6 after_rejection db'
        × (db'.versions ≡ after_rejection.versions)
        × (db'.requests ≡ after_rejection.requests))
    × ((find? (is_item 1 10) after_rejection.items ≡ none)
          ⊎ (get_version 1 10 20 after_rejection ≡ none)
        → rollback_item reviewer 10 20 6 after_rejection ≡ raise (http 404))
rollback_item-Publishes_example = rollback_item-Publishes reviewer 10 20 6 after_rejection
