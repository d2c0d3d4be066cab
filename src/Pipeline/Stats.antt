-- ===== src/Pipeline/Stats.antt =====
-- get_queue_stats of backend/app/services/sla_scheduler_service.py, and what its counts say.
use ninai.Base.{
  Bool, List, Option, [], arith, count, count_mono, if◌then◌else◌, length, ltb, none, refl, select,
  some, ℕ, ◌&&◌, ◌+◌, ◌/◌, ◌==◌, ◌∷◌, ◌≡◌, ◌≤◌,
}
use ninai.Pipeline.{
  PipelineTask, PipelineTaskStatus, Store, blocked, failed, queued, running, same_status, succeeded,
}

pub record QueueStats : Type 0 where
  pub queued_count : ℕ
  pub running_count : ℕ
  pub blocked_count : ℕ
  pub succeeded_count : ℕ
  pub failed_count : ℕ
  pub breached_sla_count : ℕ
  pub avg_latency_ms : Option ℕ

abbrev pub of_org : ℕ → PipelineTask → Bool
of_org org_id t = t.organization_id == org_id

abbrev pub with_status : ℕ → PipelineTaskStatus → PipelineTask → Bool
with_status org_id s t = of_org org_id t && same_status t.status s

-- The latencies of the completed tasks; AVG leaves the NULLs out.
abbrev pub latencies : List PipelineTask → List ℕ
latencies [] = []
latencies (t ∷ ts) =
    let rest = latencies ts in elim t.actual_latency_ms [ none ↦ rest | some l ↦ l ∷ rest ]

abbrev pub total : List ℕ → ℕ
total [] = 0
total (x ∷ xs) = x + total xs

-- `int(avg) if avg else None`: an average of 0 is no value either.
unfoldable pub average : List ℕ → Option ℕ
average [] = none
average (x ∷ xs) = if total (x ∷ xs) == 0 then none else some (total (x ∷ xs) / length (x ∷ xs))

unfoldable pub get_queue_stats : ℕ → ℕ → Store → QueueStats
unfolding average
get_queue_stats org_id now db = record {
  queued_count = count (with_status org_id queued) db.tasks;
  running_count = count (with_status org_id running) db.tasks;
  blocked_count = count (with_status org_id blocked) db.tasks;
  succeeded_count = count (with_status org_id succeeded) db.tasks;
  failed_count = count (with_status org_id failed) db.tasks;
  breached_sla_count = count (λ t. with_status org_id queued t && ltb t.sla_deadline now) db.tasks;
  avg_latency_ms = average (latencies (select (with_status org_id succeeded) db.tasks));
}

abbrev one_if : Bool → ℕ
one_if b = if b then 1 else 0

one_status :
    (s : PipelineTaskStatus)
    → one_if (same_status s queued)
        + one_if (same_status s running)
        + one_if (same_status s blocked)
        + one_if (same_status s succeeded)
        + one_if (same_status s failed)
      ≡ 1
one_status queued = refl
one_status running = refl
one_status blocked = refl
one_status succeeded = refl
one_status failed = refl

counts_add_up :
    (org_id : ℕ) (ts : List PipelineTask)
    → count (with_status org_id queued) ts
        + count (with_status org_id running) ts
        + count (with_status org_id blocked) ts
        + count (with_status org_id succeeded) ts
        + count (with_status org_id failed) ts
      ≡ count (of_org org_id) ts
counts_add_up org_id [] = refl
counts_add_up org_id (t ∷ ts) = ground (arith, counts_add_up org_id ts, one_status t.status)

-- The five counts of the statistics add up to the organization's tasks, and no more tasks are
-- reported as past their deadline than are queued.
pub stats_add_up :
    (org_id now : ℕ) (db : Store)
    → let s = get_queue_stats org_id now db in
      (s.queued_count + s.running_count + s.blocked_count + s.succeeded_count + s.failed_count
        ≡ count (of_org org_id) db.tasks)
      × (s.breached_sla_count ≤ s.queued_count)
unfolding get_queue_stats
stats_add_up org_id now db = (
  counts_add_up org_id db.tasks,
  count_mono (λ t. with_status org_id queued t && ltb t.sla_deadline now)
      (with_status org_id queued) (λ t e. ground arith) db.tasks,
)
