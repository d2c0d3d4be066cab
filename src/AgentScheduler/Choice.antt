-- ===== src/AgentScheduler/Choice.antt =====
-- The process that `dequeue_next` hands out.
use ninai.AgentScheduler.{
  AgentProcess, candidates, comes_before, dequeue_next, has_id, is_runnable, running_count, start,
  started,
}
use ninai.Base.{
  All, All-Mem, All-first, All-map, All-of_order_by, All-of_select, Bool, Bool-cases, List, Mem,
  Option-cases, arith, count, count-order_by, count-selected, count_of_first, false, first,
  first-least, inl, inr, leb, leb→le, ltb, ltb→lt, none, not, order_by, order_by-All,
  order_by-IsOrdered, refl, select-All, some, sym, true, update, ℕ, ◌&&◌, ◌<◌, ◌∙◌, ◌≡◌, ◌≤◌, ◌⊎◌,
}

abbrev pub is_free : (ℕ → Bool) → ℕ → AgentProcess → Bool
is_free locked org_id p = is_runnable org_id p && not (locked p.id)

comes_before_irrefl : (p : AgentProcess) → comes_before p p ≡ false
comes_before_irrefl p = ground arith

comes_before-asym : (p q : AgentProcess) → comes_before p q ≡ true → comes_before q p ≡ false
comes_before-asym p q h = ground arith

comes_before-comparable :
    (p q r : AgentProcess)
    → comes_before q p ≡ false
    → comes_before r q ≡ false
    → comes_before r p ≡ false
comes_before-comparable p q r h k = ground arith

module _ (locked : ℕ → Bool) (org_id : ℕ) (ps : List AgentProcess) where
  -- What comes first is free, and has what all rows have.
  pub first-free :
      (p : AgentProcess)
      → first (order_by comes_before (candidates locked org_id ps)) ≡ some p
      → (P : AgentProcess → Type 0) → All P ps
      → P p × (is_free locked org_id p ≡ true)
  first-free p e P h =
      All-first (λ u. P u × (is_free locked org_id u ≡ true))
        (order_by comes_before (candidates locked org_id ps)) p e
        (order_by-All comes_before (λ u. P u × (is_free locked org_id u ≡ true))
          (candidates locked org_id ps) (select-All (is_free locked org_id) P ps h))

  first-foremost :
      (p : AgentProcess)
      → first (order_by comes_before (candidates locked org_id ps)) ≡ some p
      → All (λ u. is_free locked org_id u ≡ true → comes_before u p ≡ false) ps
  first-foremost p e =
      All-of_select (is_free locked org_id) (λ u. comes_before u p ≡ false) ps
        (All-of_order_by comes_before (λ u. comes_before u p ≡ false) (candidates locked org_id ps)
          (first-least comes_before (order_by comes_before (candidates locked org_id ps)) p
            comes_before_irrefl e
            (order_by-IsOrdered comes_before comes_before-asym comes_before-comparable
              (candidates locked org_id ps))))

-- `p` may be handed out, and of all rows that may be it has the highest priority and, among those
-- of its priority, was created first.
pub record IsForemost (locked : ℕ → Bool) (org_id : ℕ) (p : AgentProcess) (ps : List AgentProcess)
    : Type 0 where
  pub stored : Mem p ps
  pub free : is_free locked org_id p ≡ true
  pub foremost :
      All
        (λ u.
          is_free locked org_id u ≡ true
          → (u.priority < p.priority) ⊎ ((u.priority ≡ p.priority) × (p.created_at ≤ u.created_at)))
        ps

behind :
    (u p : AgentProcess)
    → comes_before u p ≡ false
    → (u.priority < p.priority) ⊎ ((u.priority ≡ p.priority) × (p.created_at ≤ u.created_at))
behind u p h = elim (Bool-cases (ltb u.priority p.priority)) [
  | inl e ↦ inl (ltb→lt u.priority p.priority e)
  | inr e ↦ inr (ground arith, ground arith)
]

-- Below the running cap, `dequeue_next` marks as running, with one more attempt, the queued process
-- of the organization with attempts left that has the highest priority and is the oldest of these,
-- rows locked elsewhere left out, and returns it. It returns nothing and changes nothing when the
-- cap is reached or when there is no such process.
pub dequeue_next-IsForemost :
    (max_running : ℕ) (locked : ℕ → Bool) (org_id now : ℕ) (ps : List AgentProcess)
    → ((p : AgentProcess) × (running_count org_id ps < max_running)
        × IsForemost locked org_id p ps
        × (dequeue_next max_running locked org_id now ps
            ≡ (some (start now p), update (has_id p.id) (start now) ps)))
      ⊎ ((dequeue_next max_running locked org_id now ps ≡ (none, ps))
          × ((max_running ≤ running_count org_id ps) ⊎ (count (is_free locked org_id) ps ≡ 0)))
unfolding dequeue_next started
dequeue_next-IsForemost max_running locked org_id now ps =
    elim (Bool-cases (leb max_running (running_count org_id ps))) [
      | inl full ↦ inr (rw full refl, inl (leb→le _ _ full))
      | inr room ↦
          let list = order_by comes_before (candidates locked org_id ps) in
          elim (Option-cases (first list)) [
            | inl e ↦ inr (
              rw room (rw e refl),
              inr (
                  sym (count-selected (is_free locked org_id) ps)
                  ∙ sym (count-order_by comes_before (λ x. true) (candidates locked org_id ps))
                  ∙ count_of_first (λ x. true) list e),
            )
            | inr (p, e) ↦
                let row = first-free locked org_id ps p e (λ u. Mem u ps) (All-Mem ps) in
                inl (
                  p,
                  ground arith,
                  record {
                    stored = row.0;
                    free = row.1;
                    foremost =
                        All-map (λ u h f. behind u p (h f)) ps
                          (first-foremost locked org_id ps p e);
                  },
                  rw room (rw e refl),
                )
          ]
    ]
