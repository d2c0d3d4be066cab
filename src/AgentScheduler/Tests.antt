-- ===== src/AgentScheduler/Tests.antt =====
-- Runs of backend/app/services/agent_scheduler_service.py.
use ninai.AgentScheduler.{
  AgentProcess, NewProcess, Request, dequeue_next, dequeuing, enqueue, enqueuing, has_id,
  mark_terminal, marking, new_process, reset_to_queue, resetting, run, running_count,
  scheduler_enqueue, scheduler_update, serve, start, succeeded,
}
use ninai.AgentScheduler.Bounds.{IsWithin, run-IsWithin}
use ninai.AgentScheduler.Choice.{IsForemost, dequeue_next-IsForemost, is_free}
use ninai.Base.{
  List, [], count, false, insert_by, none, order_by, refl, some, update, ℕ, ◌<◌, ◌∷◌, ◌≡◌, ◌≤◌, ◌⊎◌,
}

abbrev urgent : NewProcess
urgent = record { id = 7; organization_id = 1; priority = 5; max_attempts = 2 }

abbrev calls : List (Request × ℕ)
calls =
    (enqueuing (record urgent { id = 6; priority = 0 }) (scheduler_enqueue ∷ []), 10)
    ∷ (enqueuing urgent (scheduler_enqueue ∷ []), 11)
    ∷ (dequeuing (λ k. false) 1, 12)
    ∷ (dequeuing (λ k. false) 1, 13)
    ∷ (marking succeeded 7 [], 14)
    ∷ (resetting 7 (scheduler_update ∷ []), 15)
    ∷ []

abbrev two_processes : List AgentProcess
two_processes = new_process urgent 11 ∷ new_process (record urgent { id = 8 }) 12 ∷ []

one_runs : running_count 1 (run 1 calls []) ≡ 0
unfolding run serve enqueue dequeue_next mark_terminal reset_to_queue order_by insert_by
one_runs = refl

run-IsWithin_example : IsWithin 1 (run 1 calls [])
run-IsWithin_example = run-IsWithin 1 calls

dequeue_next-IsForemost_example :
    ((p : AgentProcess) × (running_count 1 two_processes < 2)
      × IsForemost (λ k. false) 1 p two_processes
      × (dequeue_next 2 (λ k. false) 1 20 two_processes
          ≡ (some (start 20 p), update (has_id p.id) (start 20) two_processes)))
    ⊎ ((dequeue_next 2 (λ k. false) 1 20 two_processes ≡ (none, two_processes))
        × ((2 ≤ running_count 1 two_processes)
            ⊎ (count (is_free (λ k. false) 1) two_processes ≡ 0)))
dequeue_next-IsForemost_example = dequeue_next-IsForemost 2 (λ k. false) 1 20 two_processes
