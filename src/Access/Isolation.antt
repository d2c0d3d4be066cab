-- ===== src/Access/Isolation.antt =====
-- What an allowed access implies, and how the actions are ordered.
use native.Mathlib.Nat.{le_refl}
use ninai.Access.{
  AccessDecision, Action, Database, MemoryMetadata, SharePermission, TeamRole, admin, clearance,
  clearance_details, deleting, deny, edit, lead, member, no_details, not_found, org_isolation,
  permits, reading, sharing, writing,
}
use ninai.Access.Answers.{a_decision, bound_and, is_allowed-bound}
use ninai.Access.Checker.{AccessExplanation, check_memory_access, explain_access, get_memory}
use ninai.Access.Filter.{is_reading}
use ninai.Access.Policy.{HasUniqueKeys, role_permits}
use ninai.Access.Refinement.{check_memory_access-Decides, is_allowed}
use ninai.Access.Settled.{permitted_mono}
use ninai.Base.{
  Option-cases, Outcome, arith, false, if◌then◌else◌, inl, inr, ltb, not, ok, refl, some, true, ℕ,
  ◌==◌, ◌≡◌, ◌≤◌,
}

guards_passed :
    (a b required level : ℕ) (x y : AccessDecision) (rest : Outcome AccessDecision)
    → x.allowed ≡ false
    → y.allowed ≡ false
    → is_allowed (if not (a == b) then ok x else if ltb level required then ok y else rest) ≡ true
    → (a ≡ b) × (required ≤ level)
guards_passed a b required level x y rest p q h = ground arith

deleting_role : (r : TeamRole) → role_permits deleting r ≡ true → role_permits sharing r ≡ true
deleting_role admin h = refl
deleting_role lead h = refl
deleting_role (member s) h = cc

sharing_role : (r : TeamRole) → role_permits sharing r ≡ true → role_permits writing r ≡ true
sharing_role admin h = refl
sharing_role lead h = refl
sharing_role (member s) h = cc

edit_permits : (p : SharePermission) → permits writing p ≡ true → permits reading p ≡ true
edit_permits edit h = refl
edit_permits p h = ground arith

module _ (db : Database) (user_id org_id id : ℕ) where
  -- Whatever the check allows, for any action, the memory exists, belongs to the caller's
  -- organization and asks for no more clearance than the caller has.
  pub check_isolated :
      (action : Action) (level now : ℕ)
      → is_allowed (check_memory_access db user_id org_id id action level now) ≡ true
      → (m : MemoryMetadata) × (get_memory db id ≡ some m)
        × (m.organization_id ≡ org_id)
        × (m.required_clearance ≤ level)
  unfolding check_memory_access
  check_isolated action level now h = elim (Option-cases (get_memory db id)) [
    | inl e ↦ let turned_away : is_allowed (ok (deny not_found no_details)) ≡ true = rw e at h in cc
    | inr (m, e) ↦
        let guarded =
          guards_passed m.organization_id org_id m.required_clearance level
            (deny org_isolation no_details)
            (deny clearance (clearance_details m.required_clearance level m.classification)) _ refl
            refl (rw e at h) in
        (m, e, guarded.0, guarded.1)
  ]

  -- Where the keys are unique and the driver takes the query for shares, what is allowed at a clearance is allowed at every higher one.
  pub check_clearance_mono :
      (action : Action) (level level' now : ℕ)
      → HasUniqueKeys db
      → db.binds_aware ≡ true
      → level ≤ level'
      → is_allowed (check_memory_access db user_id org_id id action level now) ≡ true
      → is_allowed (check_memory_access db user_id org_id id action level' now) ≡ true
  check_clearance_mono action level level' now unique bound l h =
      rw (is_allowed-bound db user_id org_id id action level' now unique bound) (
        permitted_mono db user_id org_id role_permits role_permits action action level level' now
          (get_memory db id) (λ r k. k) (λ p k. k) (λ k. k) l
          (rw (is_allowed-bound db user_id org_id id action level now unique bound) at h))

  implied :
      (a b : Action) (level now : ℕ)
      → HasUniqueKeys db
      → db.binds_aware ≡ true
      → ((r : TeamRole) → role_permits a r ≡ true → role_permits b r ≡ true)
      → ((p : SharePermission) → permits a p ≡ true → permits b p ≡ true)
      → (is_reading a ≡ true → is_reading b ≡ true)
      → (d e : AccessDecision) → check_memory_access db user_id org_id id a level now ≡ ok d
      → check_memory_access db user_id org_id id b level now ≡ ok e
      → d.allowed ≡ true
      → e.allowed ≡ true
  implied a b level now unique bound roles shares reads d e da eb allowed =
      let before : is_allowed (check_memory_access db user_id org_id id a level now) ≡ true =
        rw da allowed in
      let after : is_allowed (check_memory_access db user_id org_id id b level now) ≡ true =
        rw (is_allowed-bound db user_id org_id id b level now unique bound) (
          permitted_mono db user_id org_id role_permits role_permits a b level level now
            (get_memory db id) roles shares reads (le_refl level)
            (rw (is_allowed-bound db user_id org_id id a level now unique bound) at before)) in
      rw eb at after

  explained :
      (level now : ℕ) (r w s d : AccessDecision)
      → check_memory_access db user_id org_id id reading level now ≡ ok r
      → check_memory_access db user_id org_id id writing level now ≡ ok w
      → check_memory_access db user_id org_id id sharing level now ≡ ok s
      → check_memory_access db user_id org_id id deleting level now ≡ ok d
      → explain_access db user_id org_id id level now
        ≡ ok (record {
          read_decision = r;
          write_decision = w;
          share_decision = s;
          delete_decision = d;
        })
  unfolding explain_access
  explained level now r w s d er ew es ed = rw (er, ew, es, ed) refl

  -- Where the keys are unique and the driver takes the query for shares, `explain_access` returns an explanation, in which who may delete
  -- may share, who may share may write, and who may write may read.
  pub explain_access_ordered :
      (level now : ℕ)
      → HasUniqueKeys db
      → db.binds_aware ≡ true
      → (x : AccessExplanation) × (explain_access db user_id org_id id level now ≡ ok x)
        × (x.delete_decision.allowed ≡ true → x.share_decision.allowed ≡ true)
        × (x.share_decision.allowed ≡ true → x.write_decision.allowed ≡ true)
        × (x.write_decision.allowed ≡ true → x.read_decision.allowed ≡ true)
  explain_access_ordered level now unique bound =
      let decided = λ (a : Action).
        a_decision _ _ (check_memory_access db user_id org_id id a level now)
          (check_memory_access-Decides db user_id org_id id a level now unique)
          (bound_and _ _ bound) in
      let (r, er) = decided reading in
      let (w, ew) = decided writing in
      let (s, es) = decided sharing in
      let (d, ed) = decided deleting in
      (
        record { read_decision = r; write_decision = w; share_decision = s; delete_decision = d },
        explained level now r w s d er ew es ed,
        implied deleting sharing level now unique bound deleting_role (λ p k. cc) (λ k. k) d s ed
            es,
        implied sharing writing level now unique bound sharing_role (λ p k. cc) (λ k. k) s w es ew,
        implied writing reading level now unique bound (λ x k. refl) edit_permits (λ k. refl) w r ew
            er,
      )
