-- ===== src/Cognition/Ending.antt =====
-- The session's row after a run of backend/app/services/cognitive_loop/orchestrator.py.
use ninai.Base.{
  Bool, Bool-cases, List, Option, Outcome, Text, [], ap, find?, inl, inr, ok, ok-injective, raise,
  refl, same_text, some, some-injective, strip, true, update, ℕ, ◌==◌, ◌∙◌, ◌∷◌, ◌≡◌,
}
use ninai.Cognition.Guard.{ToolContext}
use ninai.Cognition.Invoker.{Environment}
use ninai.Cognition.LoopRule.{IsKept, State, rounds-IsKept}
use ninai.Cognition.Orchestrator.{
  Agents, CognitiveSession, LoopState, SessionStatus, failed, get_session, is_finished, rounds, run,
  run_session, running, save_session_status, saved,
}
use ninai.Cognition.Registry.{ToolRegistry}
use ninai.Cognition.Termination.{NeverRaises, rounds-Finishes}

-- The row that a query finds, found again after it has been changed.
find?-update :
    {A : Type 0} (p : A → Bool) (f : A → A) (xs : List A) (x : A)
    → ((y : A) → p (f y) ≡ p y)
    → find? p xs ≡ some x
    → find? p (update p f xs) ≡ some (f x)
find?-update p f [] x same = λ e. cc
find?-update p f (y ∷ ys) x same = elim (Bool-cases (p y)) [
  | inl b ↦ rw b (λ e. rw (same y ∙ b) (ap (λ z. some (f z)) (some-injective e)))
  | inr b ↦ rw b (rw b (λ e. find?-update p f ys x same e))
]

module _ (env : Environment) (agents : Agents env) (tools : ToolRegistry env.V env.S)
    (available : List Text) (recommended : Option ℕ) (ctx : ToolContext) where
  abbrev Loop : Type 0
  Loop = State env agents tools available recommended ctx

  abbrev get : ℕ → Loop → Option CognitiveSession
  get sid st = get_session env agents tools available recommended ctx sid st

  abbrev save : ℕ → SessionStatus → Loop → Loop
  save sid status st = save_session_status env agents tools available recommended ctx sid status st

  get-save :
      (sid : ℕ) (status : SessionStatus) (st : Loop) (sess : CognitiveSession)
      → get sid st ≡ some sess
      → get sid (save sid status st) ≡ some (record sess { status = status })
  get-save sid status st sess e =
      find?-update (λ s. s.id == sid) (λ s. record s { status = status }) st.sessions sess
        (λ s. refl) e

  SameSessions-IsKept :
      IsKept env agents tools available recommended ctx (λ st st'. st'.sessions ≡ st.sessions)
  SameSessions-IsKept = record {
    same = λ st. refl;
    then_on = λ a b c p q. q ∙ p;
    surroundings_changed = λ s st. refl;
    iterations_changed = λ l st. refl;
    executed = λ sid iid steps st. refl;
  }

  get-rounds :
      (n sid : ℕ) (goal : Text) (st : Loop)
      → get sid (rounds env agents tools available recommended ctx n sid 1 goal st).1 ≡ get sid st
  get-rounds n sid goal st =
      ap (λ l. find? (λ s. s.id == sid) l)
        (rounds-IsKept env agents tools available recommended ctx (λ a b. b.sessions ≡ a.sessions)
          SameSessions-IsKept n sid 1 goal st)

  -- The call returned a final status, which the session's row now has.
  abbrev Ends : ℕ → Outcome SessionStatus × Loop → Type 0
  Ends sid r =
      (sess : CognitiveSession) × (r.0 ≡ ok sess.status)
      × (is_finished sess.status ≡ true)
      × (get sid r.1 ≡ some sess)

  saved-Ends :
      (sid : ℕ) (sess : CognitiveSession) (o : Outcome SessionStatus) (st : Loop)
      → get sid st ≡ some sess
      → (status : SessionStatus) → o ≡ ok status
      → is_finished status ≡ true
      → Ends sid (saved env agents tools available recommended ctx sid (o, st))
  unfolding saved
  saved-Ends sid sess (ok s) st g status e f =
      (record sess { status = s }, refl, ok_status s status e f, get-save sid s st sess g)
    where
      ok_status :
          (a b : SessionStatus)
          → Path (Outcome SessionStatus) (ok a) (ok b)
          → is_finished b ≡ true
          → is_finished a ≡ true
      ok_status a b h k = ap (λ x. is_finished x) (ok-injective h) ∙ k
  saved-Ends sid sess (raise x) st g status e f = cc

  run_finished :
      (n sid : ℕ) (st : Loop) (sess : CognitiveSession)
      → get sid st ≡ some sess
      → is_finished sess.status ≡ true
      → run env agents tools available recommended ctx n sid st ≡ (ok sess.status, st)
  unfolding run run_session
  run_finished n sid st sess g f = rw (g, run_session) (rw f refl)

  session-Ends :
      (n sid : ℕ) (st : Loop) (sess : CognitiveSession)
      → NeverRaises env agents
      → get sid st ≡ some sess
      → Ends sid (run_session env agents tools available recommended ctx n sid (some sess) st)
  unfolding run_session
  session-Ends n sid st sess good g = elim (Bool-cases (is_finished sess.status)) [
    | inl e ↦ rw e (sess, refl, e, g)
    | inr e ↦
        let running_sess : CognitiveSession = record sess { status = running } in
        let st' : Loop = save sid running st in
        let g' = get-save sid running st sess g in
        rw e (elim (Bool-cases (same_text (strip sess.goal) [])) [
          | inl b ↦
              rw b (
                record sess { status = failed },
                refl,
                refl,
                get-save sid failed st' running_sess g',
              )
          | inr b ↦
              let goal = strip sess.goal in
              let (o, st'') = rounds env agents tools available recommended ctx n sid 1 goal st' in
              let (status, e', f) =
                rounds-Finishes env agents tools available recommended ctx good n sid 1 goal st' in
              rw b (saved-Ends sid running_sess o st'' (get-rounds n sid goal st' ∙ g') status e' f)
        ])
  ]

  -- Where the agents do not raise, a run of a session that exists returns succeeded, failed or
  -- aborted, for every bound on the rounds and whatever the agents and the tools answer; the
  -- session's row then has that status, and running it again, with any bound, returns the same and
  -- changes nothing.
  pub run-Ends :
      (max_iterations session_id : ℕ) (st : LoopState env agents tools available recommended ctx)
      (sess : CognitiveSession)
      → NeverRaises env agents
      → get_session env agents tools available recommended ctx session_id st ≡ some sess
      → (sess' : CognitiveSession) × ((run env agents tools available recommended ctx max_iterations
            session_id st).0
          ≡ ok sess'.status)
        × (is_finished sess'.status ≡ true)
        × (get_session env agents tools available recommended ctx session_id
              (run env agents tools available recommended ctx max_iterations session_id st).1
            ≡ some sess')
        × ((again : ℕ)
            → run env agents tools available recommended ctx again session_id
                (run env agents tools available recommended ctx max_iterations session_id st).1
              ≡ (
                ok sess'.status,
                (run env agents tools available recommended ctx max_iterations session_id st).1,
              ))
  unfolding run
  run-Ends n sid st sess good g =
      let ends : Ends sid
          (run_session env agents tools available recommended ctx n sid (get sid st) st) =
        rw g (session-Ends n sid st sess good g) in
      let st' = (run_session env agents tools available recommended ctx n sid (get sid st) st).1 in
      (ends.0, ends.1, ends.2, ends.3, λ again. run_finished again sid st' ends.0 ends.3 ends.2)
