-- ===== src/AgentScheduler/Bounds.antt =====
-- What stays within its bounds over sequences of calls.
use mathlib.Core.Path.{subst}
use native.Mathlib.Nat.{le_trans}
use ninai.AgentScheduler.{
  AgentProcess, NewProcess, ProcessStatus, Request, Scope, blocked, candidates, comes_before,
  committed, dequeue_next, dequeuing, enqueue, enqueuing, failed, finish, has_id, is_running,
  is_terminal, mark_terminal, marking, new_process, queued, requeued, reset_to_queue, resetting,
  run, running, running_count, runs_for, same_scope, scheduler_enqueue, scheduler_update, serve,
  start, started, succeeded,
}
use ninai.AgentScheduler.Choice.{first-free}
use ninai.AgentScheduler.Rows.{
  count-update-le, count-update_mono, count_of_not_any, every, only_row, update-All-if,
}
use ninai.Base.{
  ==_iff, ==_refl, All, All-map, Bool, Bool-cases, List, Option-cases, [], any, ap, append-All,
  arith, count, count-append, false, first, inl, inr, leb, order_by, refl, sym, true, update,
  update-All, ℕ, ◌++◌, ◌<◌, ◌==◌, ◌∙◌, ◌∷◌, ◌≡◌, ◌≤◌,
}

-- Ids are unique, no organization runs more than the cap, and no process was started more often
-- than it may be.
pub record IsWithin (max_running : ℕ) (ps : List AgentProcess) : Type 0 where
  pub unique : (k : ℕ) → count (has_id k) ps ≤ 1
  pub capped : (org_id : ℕ) → running_count org_id ps ≤ max_running
  pub tried : All (λ p. p.attempts ≤ p.max_attempts) ps

-- A started row runs for its own organization only.
elsewhere :
    (org_id now k : ℕ) (p x : AgentProcess)
    → p.organization_id ≡ org_id
    → (org_id == k) ≡ false
    → x ≡ p
    → runs_for k (start now x) ≡ false
elsewhere org_id now k p x o e same = rw same (ground arith)

tries :
    (now : ℕ) (p x : AgentProcess)
    → p.attempts < p.max_attempts
    → x ≡ p
    → (start now x).attempts ≤ (start now x).max_attempts
tries now p x a same = rw same (omega arith)

module _ (max_running : ℕ) where
  -- A change that keeps the ids and the tries, and starts nothing.
  quiet-IsWithin :
      (k : ℕ) (f : AgentProcess → AgentProcess) (ps : List AgentProcess)
      → ((j : ℕ) (p : AgentProcess) → has_id j (f p) ≡ has_id j p)
      → ((o : ℕ) (p : AgentProcess) → runs_for o (f p) ≡ false)
      → ((p : AgentProcess) → p.attempts ≤ p.max_attempts → (f p).attempts ≤ (f p).max_attempts)
      → IsWithin max_running ps
      → IsWithin max_running (update (has_id k) f ps)
  quiet-IsWithin k f ps same quiet bounded w = record {
    unique = λ j.
        le_trans
          (count-update_mono (has_id j) (has_id k) f ps (
            every (λ x. has_id k x ≡ true → has_id j x ≡ false → has_id j (f x) ≡ false)
              (λ x _ h. same j x ∙ h) ps))
          (w.unique j);
    capped = λ o.
        le_trans
          (count-update_mono (runs_for o) (has_id k) f ps (
            every (λ x. has_id k x ≡ true → runs_for o x ≡ false → runs_for o (f x) ≡ false)
              (λ x _ _. quiet o x) ps))
          (w.capped o);
    tried =
        update-All (has_id k) f (λ p. p.attempts ≤ p.max_attempts) ps (λ p h e. bounded p h)
          w.tried;
  }

  terminal-stopped :
      (status : ProcessStatus) → is_terminal status ≡ true → is_running status ≡ false
  terminal-stopped queued h = cc
  terminal-stopped running h = cc
  terminal-stopped blocked h = refl
  terminal-stopped succeeded h = refl
  terminal-stopped failed h = refl

  mark_terminal-IsWithin :
      (status : ProcessStatus) (id : ℕ) (scopes : List Scope) (now : ℕ) (ps : List AgentProcess)
      → IsWithin max_running ps
      → IsWithin max_running (committed ps (mark_terminal status id scopes now ps))
  unfolding mark_terminal
  mark_terminal-IsWithin status id scopes now ps w = elim (Bool-cases (is_terminal status)) [
    | inr e ↦ rw e w
    | inl e ↦ rw e (elim (Bool-cases (any (λ s. same_scope s scheduler_update) scopes)) [
      | inr s ↦ rw s w
      | inl s ↦
          let stopped : is_running status ≡ false = terminal-stopped status e in
          rw s (
            quiet-IsWithin id (finish status now) ps (λ j p. refl) (λ o p. ground (arith, stopped))
              (λ p h. h) w)
    ])
  ]

  reset_to_queue-IsWithin :
      (id : ℕ) (scopes : List Scope) (ps : List AgentProcess)
      → IsWithin max_running ps
      → IsWithin max_running (committed ps (reset_to_queue id scopes ps))
  unfolding reset_to_queue
  reset_to_queue-IsWithin id scopes ps w =
      elim (Bool-cases (any (λ s. same_scope s scheduler_update) scopes)) [
        | inr s ↦ rw s w
        | inl s ↦
            rw s (quiet-IsWithin id requeued ps (λ j p. refl) (λ o p. ground arith) (λ p h. h) w)
      ]

  new_unique :
      (n : NewProcess) (now k : ℕ) (ps : List AgentProcess)
      → any (has_id n.id) ps ≡ false
      → count (has_id k) ps ≤ 1
      → count (has_id k) (ps ++ new_process n now ∷ []) ≤ 1
  new_unique n now k ps fresh h =
      let split_count = count-append (has_id k) ps (new_process n now ∷ []) in
      elim (Bool-cases (n.id == k)) [
        | inl e ↦
            let same : n.id ≡ k = (==_iff n.id k).0 e in
            let absent : count (has_id k) ps ≡ 0 =
              count_of_not_any (has_id k) ps (ap (λ j. any (has_id j) ps) (sym same) ∙ fresh) in
            rw split_count (rw e (omega arith))
        | inr e ↦ rw split_count (rw e (omega arith))
      ]

  append-IsWithin :
      (n : NewProcess) (now : ℕ) (ps : List AgentProcess)
      → any (has_id n.id) ps ≡ false
      → IsWithin max_running ps
      → IsWithin max_running (ps ++ new_process n now ∷ [])
  append-IsWithin n now ps fresh w = record {
    unique = λ k. new_unique n now k ps fresh (w.unique k);
    capped = λ o. ground (arith, count-append (runs_for o) ps (new_process n now ∷ []), w.capped o);
    tried =
        append-All (λ p. p.attempts ≤ p.max_attempts) ps (new_process n now ∷ []) w.tried
          (omega arith, tt);
  }

  enqueue-IsWithin :
      (n : NewProcess) (scopes : List Scope) (now : ℕ) (ps : List AgentProcess)
      → IsWithin max_running ps
      → IsWithin max_running (committed ps (enqueue n scopes now ps))
  unfolding enqueue
  enqueue-IsWithin n scopes now ps w =
      elim (Bool-cases (any (λ s. same_scope s scheduler_enqueue) scopes)) [
        | inr s ↦ rw s w
        | inl s ↦ rw s (elim (Bool-cases (any (has_id n.id) ps)) [
          | inl a ↦ rw a w
          | inr a ↦ rw a (append-IsWithin n now ps a w)
        ])
      ]

  -- Only one row is started, and its organization is below the cap.
  start-IsWithin :
      (org_id now : ℕ) (p : AgentProcess) (ps : List AgentProcess)
      → p.organization_id ≡ org_id
      → p.attempts < p.max_attempts
      → running_count org_id ps < max_running
      → All (λ y. has_id p.id y ≡ true → y ≡ p) ps
      → IsWithin max_running ps
      → IsWithin max_running (update (has_id p.id) (start now) ps)
  start-IsWithin org_id now p ps o a room only w = record {
    unique = λ k.
        le_trans
          (count-update_mono (has_id k) (has_id p.id) (start now) ps (
            every (λ x. has_id p.id x ≡ true → has_id k x ≡ false → has_id k (start now x) ≡ false)
              (λ x _ h. h) ps))
          (w.unique k);
    capped = λ k. elim (Bool-cases (org_id == k)) [
      | inl e ↦
          let same : org_id ≡ k = (==_iff org_id k).0 e in
          let less : running_count k ps < max_running =
            subst (λ x. running_count x ps < max_running) same room in
          omega (arith, count-update-le (runs_for k) (has_id p.id) (start now) ps, w.unique p.id)
      | inr e ↦
          le_trans
            (count-update_mono (runs_for k) (has_id p.id) (start now) ps
              (All-map (λ x h t _. elsewhere org_id now k p x o e (h t)) ps only))
            (w.capped k)
    ];
    tried =
        update-All-if (has_id p.id) (start now) (λ x. x.attempts ≤ x.max_attempts) ps
          (All-map (λ x h t. tries now p x a (h t)) ps only) w.tried;
  }

  dequeue_next-IsWithin :
      (locked : ℕ → Bool) (org_id now : ℕ) (ps : List AgentProcess)
      → IsWithin max_running ps
      → IsWithin max_running (dequeue_next max_running locked org_id now ps).1
  unfolding dequeue_next started
  dequeue_next-IsWithin locked org_id now ps w =
      elim (Bool-cases (leb max_running (running_count org_id ps))) [
        | inl full ↦ rw full w
        | inr room ↦
            let list = order_by comes_before (candidates locked org_id ps) in
            rw room (elim (Option-cases (first list)) [
              | inl e ↦ rw e w
              | inr (p, e) ↦
                  let among = first-free locked org_id ps p e in
                  let free = (among (λ x. Unit {0}) (every (λ x. Unit {0}) (λ x. tt) ps)).1 in
                  rw e (
                    start-IsWithin org_id now p ps (ground arith) (ground arith) (ground arith)
                      (only_row (has_id p.id) ps p (w.unique p.id) (λ P h. (among P h).0)
                        (==_refl p.id))
                      w)
            ])
      ]

  serve-IsWithin :
      (r : Request) (now : ℕ) (ps : List AgentProcess)
      → IsWithin max_running ps
      → IsWithin max_running (serve max_running r now ps)
  unfolding serve
  serve-IsWithin (enqueuing n scopes) now ps w = enqueue-IsWithin n scopes now ps w
  serve-IsWithin (dequeuing locked org_id) now ps w = dequeue_next-IsWithin locked org_id now ps w
  serve-IsWithin (marking status id scopes) now ps w =
      mark_terminal-IsWithin status id scopes now ps w
  serve-IsWithin (resetting id scopes) now ps w = reset_to_queue-IsWithin id scopes ps w

-- Over every sequence of calls from an empty table, one transaction after the other: no
-- organization has more running processes than the cap, no process was started more often than its
-- maximum, and no two rows have one id.
pub run-IsWithin :
    (max_running : ℕ) (rs : List (Request × ℕ)) → IsWithin max_running (run max_running rs [])
unfolding run
run-IsWithin max_running rs =
    from rs [] (record { unique = λ k. omega arith; capped = λ o. omega arith; tried = tt })
  where
    from :
        (rs : List (Request × ℕ)) (ps : List AgentProcess)
        → IsWithin max_running ps
        → IsWithin max_running (run max_running rs ps)
    from [] ps w = w
    from ((r, now) ∷ rs) ps w =
        from rs (serve max_running r now ps) (serve-IsWithin max_running r now ps w)
