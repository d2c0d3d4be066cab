-- ===== src/RateLimiter/Window.antt =====
-- The requests that the sliding window admits, over sequences of calls for any keys.
use native.Mathlib.Nat.{le_refl, le_trans}
use ninai.Base.{
  All, All-map, Bool, Bool-cases, List, Text, [], ap, arith, count, count-selected, false,
  if◌then◌else◌, inl, inr, leb, length, limit, ltb, not, refl, same_text, same_text-eq, select,
  true, ℕ, ◌+◌, ◌-◌, ◌∙◌, ◌∷◌, ◌≡◌, ◌≤◌,
}
use ninai.Permissions.Segments.{same_text_refl}
use ninai.RateLimiter.{RateStatus, Server, admit, exceeded, permitted, seconds}

-- A request at time `x` is in the window that ends at `now`.
abbrev pub live : ℕ → ℕ → ℕ → Bool
live window now x = ltb now (x + window)

-- The requests admitted, newest first: none was one too many for its window.
abbrev pub WithinLimit : ℕ → ℕ → List ℕ → Type 0
WithinLimit limit window [] = Unit
WithinLimit limit window (x ∷ xs) =
    (count (live window x) (x ∷ xs) ≤ limit) × WithinLimit limit window xs

-- What the window test keeps is what is live, now and later.
length-eq-count : {A : Type 0} (xs : List A) → length xs ≡ count (λ x. true) xs
length-eq-count [] = refl
length-eq-count (x ∷ xs) = omega (arith, length-eq-count xs)

kept-live :
    (window now : ℕ) (xs : List ℕ)
    → window ≤ now
    → count (λ x. not (leb x (now - window))) xs ≡ count (live window now) xs
kept-live window now [] h = refl
kept-live window now (x ∷ xs) h = ground (arith, kept-live window now xs h)

count-live_kept :
    (window now later : ℕ) (xs : List ℕ)
    → window ≤ now
    → now ≤ later
    → count (live window later) (select (λ x. not (leb x (now - window))) xs)
      ≡ count (live window later) xs
count-live_kept window now later [] h k = refl
count-live_kept window now later (x ∷ xs) h k =
    ground (arith, count-live_kept window now later xs h k)

none_live :
    (window later : ℕ) (xs : List ℕ)
    → All (λ x. x + window ≤ later) xs
    → count (live window later) xs ≡ 0
none_live window later [] h = refl
none_live window later (x ∷ xs) (h, hs) = ground (arith, none_live window later xs hs)

module _ (server : Server) (limit window : ℕ) where
  open server use {
    State, scores, zremrangebyscore, zadd, expire, scores-zremrangebyscore, count-zadd,
    scores-zadd_other, scores-expire,
  }

  -- A call of `check_rate_limit` for each key and time, with the admitted times of the key `k`.
  unfoldable pub admitted_times : Text → Text → ℕ → RateStatus → List ℕ → List ℕ
  admitted_times k key now (permitted l r) log = if same_text key k then now ∷ log else log
  admitted_times k key now (exceeded r) log = log

  unfoldable pub calls : Text → List (Text × ℕ) → State → List ℕ → List ℕ
  unfolding admitted_times
  calls k [] s log = log
  calls k ((key, now) ∷ rest) s log =
      let (status, s') = admit server key limit window now s in
      calls k rest s' (admitted_times k key now status log)

  -- The server still has every logged request that is live, at every later time.
  record Tracks (k : Text) (now : ℕ) (s : State) (log : List ℕ) : Type 0 where
    past : All (λ x. x ≤ now) log
    held :
        (at later : ℕ)
        → now ≤ at
        → at ≤ later
        → count (live window later) log ≤ count (live window later) (scores k at s)

  removed-count :
      (k key : Text) (now at later : ℕ) (s : State)
      → window ≤ now
      → now ≤ later
      → count (live window later) (scores k at (zremrangebyscore key (now - window) s))
        ≡ count (live window later) (scores k at s)
  removed-count k key now at later s h le =
      ap (λ l. count (live window later) l) (scores-zremrangebyscore key k (now - window) at s)
      ∙ either (same_text key k)
    where
      either :
          (b : Bool)
          → count (live window later) (
              if b then select (λ x. not (leb x (now - window))) (scores k at s) else scores k at s)
            ≡ count (live window later) (scores k at s)
      either true = count-live_kept window now later (scores k at s) h le
      either false = refl

  -- What the code counts is what is live.
  found-count :
      (key : Text) (now : ℕ) (s : State)
      → window ≤ now
      → length (scores key now (zremrangebyscore key (now - window) s))
        ≡ count (live window now) (scores key now s)
  found-count key now s h =
      ap (λ l. length l)
        (scores-zremrangebyscore key key (now - window) now s ∙ rw (same_text_refl key) refl)
      ∙ length-eq-count (select (λ x. not (leb x (now - window))) (scores key now s))
      ∙ count-selected (λ x. not (leb x (now - window))) (scores key now s)
      ∙ kept-live window now (scores key now s) h

  later-Tracks :
      (k : Text) (now later : ℕ) (s : State) (log : List ℕ)
      → now ≤ later
      → Tracks k now s log
      → Tracks k later s log
  later-Tracks k now later s log le t = record {
    past = All-map (λ x h. le_trans h le) log t.past;
    held = λ at after h. t.held at after (le_trans le h);
  }

  removed-Tracks :
      (k key : Text) (now : ℕ) (s : State) (log : List ℕ)
      → window ≤ now
      → Tracks k now s log
      → Tracks k now (zremrangebyscore key (now - window) s) log
  removed-Tracks k key now s log h t = record {
    past = t.past;
    held = λ at later a b.
        rw (removed-count k key now at later s h (le_trans a b)) (t.held at later a b);
  }

  -- The state after a request has been let in.
  abbrev let_in : Text → ℕ → State → State
  let_in key now s = expire key (window + seconds 60) now (zadd key now now s)

  same_key-Tracks :
      (k key : Text) (now : ℕ) (s : State) (log : List ℕ)
      → same_text key k ≡ true
      → Tracks k now s log
      → Tracks k now (let_in key now s) (now ∷ log)
  same_key-Tracks k key now s log same t = record {
    past = (le_refl now, t.past);
    held = λ at later a b.
        rw (scores-expire key k (window + seconds 60) now at (zadd key now now s) a, same)
          (elim (Bool-cases (ltb at (now + (window + seconds 60)))) [
            | inl e ↦
                rw (e, count-zadd key k now now (live window later) s same)
                  (more later (t.held now later (le_refl now) (le_trans a b)))
            | inr e ↦
                let gone : count (live window later) (now ∷ log) ≡ 0 =
                  none_live window later (now ∷ log)
                    (ground arith, All-map (λ x h. over x later at h b e) log t.past) in
                rw e (rw gone (omega arith))
          ]);
  }
    where
      more :
          (later : ℕ)
          → count (live window later) log ≤ count (live window later) (scores k now s)
          → count (live window later) (now ∷ log) ≤ count (live window later) (now ∷ scores k now s)
      more later h = ground arith

      over :
          (x later at : ℕ)
          → x ≤ now
          → at ≤ later
          → ltb at (now + (window + seconds 60)) ≡ false
          → x + window ≤ later
      over x later at h b e = ground arith

  other_key-Tracks :
      (k key : Text) (now : ℕ) (s : State) (log : List ℕ)
      → same_text key k ≡ false
      → Tracks k now s log
      → Tracks k now (let_in key now s) log
  other_key-Tracks k key now s log other t = record {
    past = t.past;
    held = λ at later a b.
        rw
          (
            scores-expire key k (window + seconds 60) now at (zadd key now now s) a,
            other,
            scores-zadd_other key k now now at s other,
          )
          (t.held at later a b);
  }

  -- There is room for the request in the log too.
  room :
      (k key : Text) (now : ℕ) (s : State) (log : List ℕ)
      → window ≤ now
      → same_text key k ≡ true
      → leb limit (length (scores key now (zremrangebyscore key (now - window) s))) ≡ false
      → Tracks k now s log
      → count (live window now) (now ∷ log) ≤ limit
  room k key now s log h same e t =
      let held : count (live window now) log ≤ count (live window now) (scores k now s) =
        t.held now now (le_refl now) (le_refl now) in
      let found : length (scores key now (zremrangebyscore key (now - window) s))
          ≡ count (live window now) (scores k now s) =
        found-count key now s h
        ∙ ap (λ x. count (live window now) (scores x now s)) (same_text-eq key k same) in
      ground arith

  -- The calls come in the order of time, none before `now`.
  abbrev pub InOrder : ℕ → List (Text × ℕ) → Type 0
  InOrder now [] = Unit
  InOrder now ((key, later) ∷ rest) = (now ≤ later) × (window ≤ later) × InOrder later rest

  calls-WithinLimit :
      (k : Text) (now : ℕ) (cs : List (Text × ℕ)) (s : State) (log : List ℕ)
      → InOrder now cs
      → Tracks k now s log
      → WithinLimit limit window log
      → WithinLimit limit window (calls k cs s log)
  unfolding calls admit
  calls-WithinLimit k now [] s log o t w = w
  calls-WithinLimit k now ((key, at) ∷ rest) s log (le, h, o) t w =
      let t' = later-Tracks k now at s log le t in
      let s1 = zremrangebyscore key (at - window) s in
      let kept = removed-Tracks k key at s log h t' in
      elim (Bool-cases (leb limit (length (scores key at s1)))) [
        | inl full ↦ rw full (calls-WithinLimit k at rest s1 log o kept w)
        | inr free ↦ rw free (elim (Bool-cases (same_text key k)) [
          | inl same ↦ rw same (
              calls-WithinLimit k at rest (let_in key at s1) (at ∷ log) o
                (same_key-Tracks k key at s1 log same kept) (room k key at s log h same free t', w))
          | inr other ↦ rw other (
              calls-WithinLimit k at rest (let_in key at s1) log o
                (other_key-Tracks k key at s1 log other kept) w)
        ])
      ]

  pub admit-WithinLimit :
      (k : Text) (cs : List (Text × ℕ)) (s : State)
      → InOrder 0 cs
      → WithinLimit limit window (calls k cs s [])
  admit-WithinLimit k cs s o =
      calls-WithinLimit k 0 cs s [] o (record { past = tt; held = λ at later a b. omega arith }) tt
