-- ===== src/RateLimiter/FirstCome.antt =====
-- Which requests of a window are let through (backend/app/middleware/rate_limiter.py).
use mathlib.Core.Path.{subst}
use native.Mathlib.Nat.{le_refl, le_trans}
use ninai.Base.{
  Bool-cases, List, Option, Text, [], ap, arith, false, if◌then◌else◌, inl, inr, leb, ltb, none,
  refl, same_text, same_text-eq, some, sym, true, ℕ, ◌+◌, ◌-◌, ◌<◌, ◌∙◌, ◌∷◌, ◌≡◌, ◌≤◌,
}
use ninai.RateLimiter.{seconds}
use ninai.RateLimiter.FixedWindow.{
  LimitStatus, Memory, answer, called, counted, set_entry, too_many_requests, wrapper,
}

module _ (max_requests window_seconds : ℕ) where
  -- The requests of the key `k`.
  unfoldable pub requests : Text → List (Text × ℕ) → ℕ
  requests k [] = 0
  requests k ((key, now) ∷ rest) = (if same_text key k then 1 else 0) + requests k rest

  abbrev pub calls_of : Text → Text → LimitStatus → ℕ
  calls_of k key called = if same_text key k then 1 else 0
  calls_of k key (too_many_requests n) = 0

  -- Those of them for which the endpoint is called.
  unfoldable pub calls : Text → List (Text × ℕ) → Memory → ℕ
  calls k [] m = 0
  calls k ((key, now) ∷ rest) m =
      let (status, m') = wrapper max_requests window_seconds key now m in
      calls_of k key status + calls k rest m'

  -- The requests come in the order of time, and before `end'`.
  abbrev pub Before : ℕ → ℕ → List (Text × ℕ) → Type 0
  Before now end' [] = Unit
  Before now end' ((key, later) ∷ rest) = (now ≤ later) × (later < end') × Before later end' rest

  -- The key has no window at this time.
  abbrev pub NoWindow : ℕ → Option (ℕ × ℕ) → Type 0
  NoWindow now none = Unit
  NoWindow now (some (n, expires_at)) = expires_at ≤ now

  -- The smaller of the two.
  abbrev pub least : ℕ → ℕ → ℕ
  least a b = if leb a b then a else b

  status_calls :
      (k key : Text) (now n expires_at : ℕ)
      → same_text key k ≡ true
      → calls_of k key (answer max_requests now (n, expires_at))
        ≡ (if ltb max_requests n then 0 else 1)
  unfolding answer
  status_calls k key now n expires_at e = elim (Bool-cases (ltb max_requests n)) [
    | inl over ↦ rw over refl
    | inr fits ↦ rw (fits, e) refl
  ]

  other_calls :
      (k key : Text) (status : LimitStatus) → same_text key k ≡ false → calls_of k key status ≡ 0
  other_calls k key called e = rw e refl
  other_calls k key (too_many_requests n) e = refl

  counted_live :
      (window now n expires_at : ℕ)
      → now < expires_at
      → counted window now (some (n, expires_at)) ≡ (n + 1, expires_at)
  unfolding counted
  counted_live window now n expires_at h =
      let e : leb expires_at now ≡ false = ground arith in rw e refl

  counted_new :
      (window now : ℕ) (entry : Option (ℕ × ℕ))
      → NoWindow now entry
      → counted window now entry ≡ (1, now + window)
  unfolding counted
  counted_new window now none h = refl
  counted_new window now (some (n, expires_at)) h =
      let e : leb expires_at now ≡ true = ground arith in rw e refl

  from_zero : (a b n : ℕ) → a ≡ least b n → 0 + a ≡ least b (0 + n)
  from_zero a b n e = ground arith

  calls-live :
      (k : Text) (start end' n expires_at : ℕ) (rs : List (Text × ℕ)) (m : Memory)
      → end' ≤ expires_at
      → Before start end' rs
      → m k ≡ some (n, expires_at)
      → calls k rs m ≡ least (max_requests - n) (requests k rs)
  unfolding calls requests wrapper
  calls-live k start end' n expires_at [] m le b e = ground arith
  calls-live k start end' n expires_at ((key, now) ∷ rest) m le (x, y, b) e =
      elim (Bool-cases (same_text key k)) [
        | inr other ↦
            let later =
              calls-live k now end' n expires_at rest
                (set_entry key (counted (seconds window_seconds) now (m key)) m) le b
                (rw other e) in
            rw (other_calls k key _ other, other)
              (from_zero _ (max_requests - n) (requests k rest) later)
        | inl same ↦
            let at_key : m key ≡ some (n, expires_at) = ap m (same_text-eq key k same) ∙ e in
            let still = counted_live (seconds window_seconds) now n expires_at (ground arith) in
            let later =
              calls-live k now end' (n + 1) expires_at rest (set_entry key (n + 1, expires_at) m) le
                b (rw same refl) in
            rw (at_key, still)
              (rw (status_calls k key now (n + 1) expires_at same, same, later) (ground arith))
      ]

  NoWindow-later :
      (now later : ℕ) (entry : Option (ℕ × ℕ))
      → now ≤ later
      → NoWindow now entry
      → NoWindow later entry
  NoWindow-later now later none h w = tt
  NoWindow-later now later (some (n, expires_at)) h w = le_trans w h

  calls-new :
      (k : Text) (now end' : ℕ) (rs : List (Text × ℕ)) (m : Memory)
      → end' ≤ now + seconds window_seconds
      → Before now end' rs
      → NoWindow now (m k)
      → calls k rs m ≡ least max_requests (requests k rs)
  unfolding calls requests wrapper
  calls-new k now end' [] m le b w = ground arith
  calls-new k now end' ((key, at) ∷ rest) m le (x, y, b) w =
      let w' : NoWindow at (m k) = NoWindow-later now at (m k) x w in
      elim (Bool-cases (same_text key k)) [
        | inr other ↦
            let later =
              calls-new k at end' rest
                (set_entry key (counted (seconds window_seconds) at (m key)) m) (ground arith) b
                (rw other w') in
            rw (other_calls k key _ other, other) (from_zero _ max_requests (requests k rest) later)
        | inl same ↦
            let new =
              counted_new (seconds window_seconds) at (m key)
                (subst (λ t. NoWindow at (m t)) (sym (same_text-eq key k same)) w') in
            let later =
              calls-live k at end' 1 (at + seconds window_seconds) rest
                (set_entry key (1, at + seconds window_seconds) m) (ground arith) b
                (rw same refl) in
            rw new (
              rw (status_calls k key at 1 (at + seconds window_seconds) same, same, later)
                (ground arith))
      ]

  -- Of the requests of a key that come, in the order of time, within one length of the window
  -- after a time at which the key has no window, exactly the first `max_requests` reach the
  -- endpoint: the number of calls is the smaller of the two.
  pub first_come :
      (k : Text) (start : ℕ) (rs : List (Text × ℕ)) (m : Memory)
      → Before start (start + seconds window_seconds) rs
      → NoWindow start (m k)
      → calls k rs m ≡ least max_requests (requests k rs)
  first_come k start rs m b w =
      calls-new k start (start + seconds window_seconds) rs m
        (le_refl (start + seconds window_seconds)) b w
