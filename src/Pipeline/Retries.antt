-- ===== src/Pipeline/Retries.antt =====
-- What a failure and a review make of a task.
use ninai.Base.{
  All, All-Mem, All-map, Bool, IsOrdered, Mem, arith, false, if◌then◌else◌, length, length-limit,
  limit-All, limit-IsOrdered, not, order_by, order_by-All, order_by-IsOrdered, refl, select,
  select-All, true, ℕ, ◌&&◌, ◌==◌, ◌≡◌, ◌≤◌,
}
use ninai.Pipeline.{
  DeadLetterTask, FailureReason, PipelineTask, Store, Text, failed, queued, same_status,
  sla_breached,
}
use ninai.Pipeline.Quarantine.{dead_letter, is_upper, review_priority_of}
use ninai.Pipeline.Review.{get_pending_review, is_pending, reviewed_before}
use ninai.Pipeline.Scheduler.{fail, is_exhausted, is_runnable}

queued_again : (x : Bool) → same_status (if x then failed else queued) queued ≡ not x
queued_again true = refl
queued_again false = refl

-- A failed attempt leaves a task that can be handed out again exactly when attempts are left and
-- the quota does not hold it; else it has failed for good.
pub fail-is_runnable :
    (org_id : ℕ) (error : Text) (now : ℕ) (t : PipelineTask)
    → is_runnable org_id (fail error now t)
      ≡ t.organization_id == org_id && not (is_exhausted t) && not t.blocked_by_quota
unfolding fail
fail-is_runnable org_id error now t = ground (arith, queued_again (is_exhausted t))

-- A task of one of the five types that ends in the dead-letter queue gets the review priority 5,
-- however late it is: a failed task never counts as past its deadline.
pub dead_letter-review_priority :
    (id : ℕ) (t : PipelineTask) (reason : FailureReason) (now : ℕ)
    → same_status t.status failed ≡ true
    → is_upper t.task_type ≡ false
    → (dead_letter id t reason now).review_priority ≡ 5
unfolding dead_letter review_priority_of sla_breached
dead_letter-review_priority id t reason now f u = ground arith

reviewed_before-asym :
    (a b : DeadLetterTask) → reviewed_before a b ≡ true → reviewed_before b a ≡ false
unfolding reviewed_before
reviewed_before-asym a b = ground arith

reviewed_before-comparable :
    (a b c : DeadLetterTask)
    → reviewed_before b a ≡ false
    → reviewed_before c b ≡ false
    → reviewed_before c a ≡ false
unfolding reviewed_before
reviewed_before-comparable a b c = ground arith

-- The entries for review are pending ones of the organization, at most as many as asked for, the
-- higher priority first and then the older.
pub get_pending_review-Ordered :
    (org_id n : ℕ) (db : Store)
    → IsOrdered reviewed_before (get_pending_review org_id n db)
      × All (λ d. is_pending org_id d ≡ true) (get_pending_review org_id n db)
      × (length (get_pending_review org_id n db) ≤ n)
unfolding get_pending_review
get_pending_review-Ordered org_id n db = (
  limit-IsOrdered reviewed_before n
      (order_by reviewed_before (select (is_pending org_id) db.dead_letters))
      (order_by-IsOrdered reviewed_before reviewed_before-asym reviewed_before-comparable
        (select (is_pending org_id) db.dead_letters)),
  limit-All (λ d. is_pending org_id d ≡ true) n
      (order_by reviewed_before (select (is_pending org_id) db.dead_letters))
      (order_by-All reviewed_before (λ d. is_pending org_id d ≡ true)
        (select (is_pending org_id) db.dead_letters)
        (All-map (λ d r. r.1) (select (is_pending org_id) db.dead_letters)
          (select-All (is_pending org_id) (λ d. Mem d db.dead_letters) db.dead_letters
            (All-Mem db.dead_letters)))),
  length-limit n (order_by reviewed_before (select (is_pending org_id) db.dead_letters)),
)
