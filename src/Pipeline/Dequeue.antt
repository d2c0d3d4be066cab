-- ===== src/Pipeline/Dequeue.antt =====
-- What dequeue_next_by_sla promises.
use ninai.Base.{
  All, All-Mem, All-first, All-map, All-of_order_by, All-of_select, Bool, List, Mem, Option, count,
  count-order_by, count-selected, count_of_first, false, first, first-least, none, not, ok,
  order_by, order_by-All, order_by-IsOrdered, refl, select-All, some, sym, true, ℕ, ◌&&◌, ◌∙◌, ◌≡◌,
}
use ninai.Pipeline.{PipelineTask, Scope, Store, lacks, log_event, pipeline_dequeue, save}
use ninai.Pipeline.Order.{
  comes_before-asym, comes_before-comparable, comes_before-is-deadline_first, comes_before_irrefl,
  deadline_first,
}
use ninai.Pipeline.Scheduler.{
  candidates, comes_before, dequeue_next_by_sla, is_runnable, start, started,
}

-- A row of the table that the caller may be handed.
abbrev pub is_free : (ℕ → Bool) → ℕ → PipelineTask → Bool
is_free locked org_id t = is_runnable org_id t && not (locked t.id)

-- `t` is one of the rows, may be handed out, and no other such row is more urgent.
pub record IsEarliest (locked : ℕ → Bool) (org_id : ℕ) (t : PipelineTask) (ts : List PipelineTask)
    : Type 0 where
  pub stored : Mem t ts
  pub free : is_free locked org_id t ≡ true
  pub earliest : All (λ u. is_free locked org_id u ≡ true → deadline_first u t ≡ false) ts

module _ (locked : ℕ → Bool) (org_id now : ℕ) (db : Store) where
  ordered : List PipelineTask
  ordered = order_by (comes_before now) (candidates locked org_id db)

  -- The row that comes first is free, and has what all rows have.
  pub first-free :
      (P : PipelineTask → Type 0) (t : PipelineTask)
      → first (order_by (comes_before now) (candidates locked org_id db)) ≡ some t
      → All P db.tasks
      → P t × (is_free locked org_id t ≡ true)
  first-free P t e h =
      All-first (λ u. P u × (is_free locked org_id u ≡ true))
        (order_by (comes_before now) (candidates locked org_id db)) t e
        (order_by-All (comes_before now) (λ u. P u × (is_free locked org_id u ≡ true))
          (candidates locked org_id db) (select-All (is_free locked org_id) P db.tasks h))

  first-IsEarliest :
      (t : PipelineTask) → first ordered ≡ some t → IsEarliest locked org_id t db.tasks
  unfolding ordered
  first-IsEarliest t e =
      let row = first-free (λ u. Mem u db.tasks) t e (All-Mem db.tasks) in
      record {
        stored = row.0;
        free = row.1;
        earliest =
            All-map (λ u h f. sym (comes_before-is-deadline_first now u t) ∙ h f) db.tasks
              (All-of_select (is_free locked org_id) (λ u. comes_before now u t ≡ false) db.tasks
                (All-of_order_by (comes_before now) (λ u. comes_before now u t ≡ false)
                  (candidates locked org_id db)
                  (first-least (comes_before now) ordered t (comes_before_irrefl now) e (
                    order_by-IsOrdered (comes_before now) (comes_before-asym now)
                      (comes_before-comparable now) (candidates locked org_id db)))));
      }

  -- What a call can end in: the most urgent free task, started, or nothing when none is free.
  pub Dispatched : Option PipelineTask × Store → Type 0
  Dispatched (none, db') = (count (is_free locked org_id) db.tasks ≡ 0) × (db' ≡ db)
  Dispatched (some t', db') =
      (t : PipelineTask) × IsEarliest locked org_id t db.tasks
      × (t' ≡ start now t)
      × (db'.tasks ≡ (save t' db).tasks)
      × (db'.dead_letters ≡ db.dead_letters)

  started-Dispatched : (o : Option PipelineTask) → first ordered ≡ o → Dispatched (started now o db)
  unfolding Dispatched started save log_event ordered
  started-Dispatched none e = (
    sym (count-selected (is_free locked org_id) db.tasks)
        ∙ sym (count-order_by (comes_before now) (λ t. true) (candidates locked org_id db))
        ∙ count_of_first (λ t. true) (order_by (comes_before now) (candidates locked org_id db)) e,
    refl,
  )
  started-Dispatched (some t) e = (t, first-IsEarliest t e, refl, refl, refl)

  -- When the scopes are absent, empty or hold the one asked for, the call hands out the most urgent
  -- of the free tasks, now running and with one more attempt, and changes no task with another id;
  -- it hands out nothing only when no queued task of the organization has attempts left, is not
  -- held by the quota and is unlocked.
  pub dequeue_next_by_sla-Dispatched :
      (scopes : Option (List Scope))
      → lacks scopes pipeline_dequeue ≡ false
      → (r : Option PipelineTask × Store) × (dequeue_next_by_sla locked org_id scopes now db ≡ ok r)
        × Dispatched r
  unfolding dequeue_next_by_sla ordered
  dequeue_next_by_sla-Dispatched scopes h =
      (started now (first ordered) db, rw h refl, started-Dispatched (first ordered) refl)
