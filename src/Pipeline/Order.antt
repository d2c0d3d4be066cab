-- ===== src/Pipeline/Order.antt =====
-- The order in which the scheduler hands tasks out.
use ninai.Base.{Bool, arith, false, ltb, true, ℕ, ◌&&◌, ◌==◌, ◌||◌, ◌≡◌}
use ninai.Pipeline.{PipelineTask}
use ninai.Pipeline.Scheduler.{comes_before}

module _ (now : ℕ) where
  pub comes_before-asym :
      (a b : PipelineTask) → comes_before now a b ≡ true → comes_before now b a ≡ false
  unfolding comes_before
  comes_before-asym a b = ground arith

  pub comes_before_irrefl : (a : PipelineTask) → comes_before now a a ≡ false
  unfolding comes_before
  comes_before_irrefl a = ground arith

  pub comes_before-comparable :
      (a b c : PipelineTask)
      → comes_before now b a ≡ false
      → comes_before now c b ≡ false
      → comes_before now c a ≡ false
  unfolding comes_before
  comes_before-comparable a b c = ground arith

-- Earliest deadline first, then the higher priority, then the older task.
abbrev pub deadline_first : PipelineTask → PipelineTask → Bool
deadline_first a b =
    ltb a.sla_deadline b.sla_deadline
    || (a.sla_deadline == b.sla_deadline
        && (ltb b.priority a.priority
            || (b.priority == a.priority && ltb a.created_at b.created_at)))

-- Putting the tasks past their deadline first changes nothing: at every time the scheduler's order
-- of two tasks is the one by deadline, priority and creation.
pub comes_before-is-deadline_first :
    (now : ℕ) (a b : PipelineTask) → comes_before now a b ≡ deadline_first a b
unfolding comes_before
comes_before-is-deadline_first now a b = ground arith
