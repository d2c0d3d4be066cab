-- ===== src/RateLimiter/Tests.antt =====
-- Runs of backend/app/services/rate_limiter.py on a server that is a function from keys to sets.
use ninai.Base.{
  Bool, Bool-cases, List, Option, Text, [], arith, count, false, if◌then◌else◌, inl, inr, leb, ltb,
  none, not, refl, same_text, select, some, suc, true, unexpired, zero, ℕ, ◌+◌, ◌∷◌, ◌≡◌, ◌≤◌,
}
use ninai.RateLimiter.{RateLimiter, Server, check_rate_limit, exceeded}
use ninai.RateLimiter.Admission.{Limits, api_key, check_admission, monthly_tokens, token_key}
use ninai.RateLimiter.Charges.{charges, charges-within_quota}
use ninai.RateLimiter.FirstCome.{calls, first_come, requests}
use ninai.RateLimiter.FixedWindow.{Memory, wrapper}
use ninai.RateLimiter.Limits.{checks, checks-WithinLimit}
use ninai.RateLimiter.Quota.{Counters, get_usage_stats}
use ninai.RateLimiter.Refusals.{refused-charges}
use ninai.RateLimiter.Window.{WithinLimit}

pub record Slot : Type 0 where
  pub held : List ℕ
  pub expires : Option ℕ

abbrev alive : ℕ → Slot → List ℕ
alive now slot = if unexpired slot.expires now then slot.held else []

abbrev scores_at : Text → ℕ → (Text → Slot) → List ℕ
scores_at k now s = alive now (s k)

abbrev change : Text → (Slot → Slot) → (Text → Slot) → Text → Slot
change key f s k = if same_text key k then f (s k) else s k

abbrev drop_old : ℕ → Slot → Slot
drop_old most slot = record slot { held = select (λ x. not (leb x most)) slot.held }

-- An element added to an expired set makes a new one.
abbrev add_one : ℕ → ℕ → Slot → Slot
add_one x now slot = record {
  held = x ∷ alive now slot;
  expires = if unexpired slot.expires now then slot.expires else none;
}

abbrev keep_until : ℕ → ℕ → Slot → Slot
keep_until ttl now slot = record { held = alive now slot; expires = some (now + ttl) }

pub alive-drop_old :
    (most now : ℕ) (slot : Slot)
    → alive now (drop_old most slot) ≡ select (λ x. not (leb x most)) (alive now slot)
alive-drop_old most now slot = elim (Bool-cases (unexpired slot.expires now)) [
  | inl e ↦ rw e refl
  | inr e ↦ rw e refl
]

remove_law :
    (key k : Text) (most now : ℕ) (s : Text → Slot)
    → alive now (change key (drop_old most) s k) ≡ (
        if same_text key k
        then select (λ x. not (leb x most)) (alive now (s k))
        else alive now (s k))
remove_law key k most now s = elim (Bool-cases (same_text key k)) [
  | inl e ↦ rw e (alive-drop_old most now (s k))
  | inr e ↦ rw e refl
]

alive-add_one : (x now : ℕ) (slot : Slot) → alive now (add_one x now slot) ≡ x ∷ alive now slot
alive-add_one x now slot = elim (Bool-cases (unexpired slot.expires now)) [
  | inl e ↦ rw e (rw e refl)
  | inr e ↦ rw e refl
]

add_law :
    (key k : Text) (x now : ℕ) (p : ℕ → Bool) (s : Text → Slot)
    → same_text key k ≡ true
    → count p (alive now (change key (add_one x now) s k)) ≡ count p (x ∷ alive now (s k))
add_law key k x now p s e = rw e (rw (alive-add_one x now (s k)) refl)

other_law :
    (key k : Text) (x now later : ℕ) (s : Text → Slot)
    → same_text key k ≡ false
    → alive later (change key (add_one x now) s k) ≡ alive later (s k)
other_law key k x now later s e = rw e refl

expire_law :
    (key k : Text) (ttl now later : ℕ) (s : Text → Slot)
    → now ≤ later
    → alive later (change key (keep_until ttl now) s k) ≡ (
        if same_text key k
        then (if ltb later (now + ttl) then alive now (s k) else [])
        else alive later (s k))
expire_law key k ttl now later s h = elim (Bool-cases (same_text key k)) [
  | inl e ↦ rw e refl
  | inr e ↦ rw e refl
]

abbrev memory : Server
memory = record {
  State = Text → Slot;
  scores = scores_at;
  zremrangebyscore = λ key most s. change key (drop_old most) s;
  zadd = λ key x now s. change key (add_one x now) s;
  expire = λ key ttl now s. change key (keep_until ttl now) s;
  scores-zremrangebyscore = remove_law;
  count-zadd = add_law;
  scores-zadd_other = other_law;
  scores-expire = expire_law;
}

abbrev empty_server : Text → Slot
empty_server k = record { held = []; expires = none }

abbrev limiter : RateLimiter
limiter = record { default_limit = 100; default_window = 60 }

abbrev api : Text
api = 97 ∷ []

-- Two requests a minute: the third is refused, and one more gets in a minute after the first.
abbrev traffic : List (Text × ℕ)
traffic =
    (api, 100000000)
    ∷ (api, 101000000)
    ∷ (98 ∷ [], 101000000)
    ∷ (api, 102000000)
    ∷ (api, 160000000)
    ∷ []

two_a_minute :
    checks memory limiter (some 2) (some 0) api traffic empty_server []
    ≡ 160000000 ∷ 101000000 ∷ 100000000 ∷ []
unfolding checks check_rate_limit
two_a_minute = refl

checks-WithinLimit_example :
    WithinLimit 2 60000000 (checks memory limiter (some 2) none api traffic empty_server [])
checks-WithinLimit_example =
    checks-WithinLimit memory limiter (some 2) none api traffic empty_server (omega arith)

-- Counters as a function from keys to numbers with their time.
abbrev Counter : Type 0
Counter = Option (ℕ × Option ℕ)

abbrev number_of : Counter → ℕ → Option ℕ
number_of none now = none
number_of (some (n, t)) now = if unexpired t now then some n else none

abbrev until : ℕ → ℕ → Counter → Counter
until ttl now none = none
until ttl now (some (n, t)) = if unexpired t now then some (n, some (now + ttl)) else none

abbrev assign : Text → (Counter → Counter) → (Text → Counter) → Text → Counter
assign key f s k = if same_text key k then f (s k) else s k

number-until :
    (ttl now later : ℕ) (c : Counter)
    → number_of (until ttl now c) later ≡ (if ltb later (now + ttl) then number_of c now else none)
number-until ttl now later none = elim (Bool-cases (ltb later (now + ttl))) [
  | inl e ↦ rw e refl
  | inr e ↦ rw e refl
]
number-until ttl now later (some (n, t)) = elim (Bool-cases (unexpired t now)) [
  | inl e ↦ rw e refl
  | inr e ↦
      rw e (elim (Bool-cases (ltb later (now + ttl))) [ inl b ↦ rw b refl | inr b ↦ rw b refl ])
]

put_law :
    (key k : Text) (v now : ℕ) (s : Text → Counter)
    → number_of (assign key (λ c. some (v, none)) s k) now
      ≡ (if same_text key k then some v else number_of (s k) now)
put_law key k v now s = elim (Bool-cases (same_text key k)) [
  | inl e ↦ rw e refl
  | inr e ↦ rw e refl
]

until_law :
    (key k : Text) (ttl now later : ℕ) (s : Text → Counter)
    → now ≤ later
    → number_of (assign key (until ttl now) s k) later ≡ (
        if same_text key k
        then (if ltb later (now + ttl) then number_of (s k) now else none)
        else number_of (s k) later)
until_law key k ttl now later s h = elim (Bool-cases (same_text key k)) [
  | inl e ↦ rw e (number-until ttl now later (s k))
  | inr e ↦ rw e refl
]

delete_law :
    (key k : Text) (now : ℕ) (s : Text → Counter)
    → number_of (assign key (λ c. none) s k) now
      ≡ (if same_text key k then none else number_of (s k) now)
delete_law key k now s = elim (Bool-cases (same_text key k)) [
  | inl e ↦ rw e refl
  | inr e ↦ rw e refl
]

abbrev counting : Counters
counting = record {
  Store = Text → Counter;
  number = λ k now s. number_of (s k) now;
  put = λ key v s. assign key (λ c. some (v, none)) s;
  expire = λ key ttl now s. assign key (until ttl now) s;
  delete = λ key s. assign key (λ c. none) s;
  number-put = put_law;
  number-expire = until_law;
  number-delete = delete_law;
}

abbrev no_counters : Text → Counter
no_counters k = none

-- 60 and 50 of 100 do not go together.
charges-within_quota_example :
    charges counting 100 api ((api, 60, 5) ∷ (api, 50, 6) ∷ (api, 40, 7) ∷ []) no_counters ≤ 100
charges-within_quota_example =
    charges-within_quota counting 100 api 0 ((api, 60, 5) ∷ (api, 50, 6) ∷ (api, 40, 7) ∷ [])
      no_counters (omega arith) (λ at. refl)

abbrev org : Text
org = 111 ∷ []

-- A window with a hundred requests at time 70000000.
abbrev crowd : ℕ → List ℕ
crowd zero = []
crowd (suc n) = 70000000 ∷ crowd n

abbrev full_server : Text → Slot
full_server k = record { held = crowd 100; expires = none }

abbrev start_of_day : Limits counting memory limiter true
start_of_day = record { quotas = no_counters; windows = full_server }

window_is_full :
    (check_rate_limit memory limiter true
      (api_key org api)
      (some 100)
      (some 60)
      71000000
      full_server).0
    ≡ exceeded 59
unfolding check_rate_limit
window_is_full = refl

small_enough :
    get_usage_stats counting true (token_key org api) 71000000 no_counters + suc 499
    ≤ monthly_tokens
unfolding get_usage_stats
small_enough = omega arith

refused-charges_example :
    ((check_admission counting memory limiter true org api api
        (some (suc 499))
        none
        71000000
        start_of_day).0.admitted
      ≡ false)
    × (get_usage_stats counting true
          (token_key org api)
          71000000
          (check_admission counting memory limiter true org api api
            (some (suc 499))
            none
            71000000
            start_of_day).1.quotas
        ≡ get_usage_stats counting true (token_key org api) 71000000 no_counters + suc 499)
refused-charges_example =
    refused-charges counting memory limiter org api api 499 59 71000000 none start_of_day
      small_enough window_is_full

abbrev no_memory : Memory
no_memory k = none

-- Three requests of one user in a window that admits two, and one of another.
abbrev visits : List (Text × ℕ)
visits = (api, 100) ∷ (api, 200) ∷ (98 ∷ [], 200) ∷ (api, 300) ∷ []

two_first : calls 2 60 api visits no_memory ≡ 2
unfolding calls wrapper
two_first = refl

first_come_example : calls 2 60 api visits no_memory ≡ 2
unfolding requests
first_come_example =
    first_come 2 60 api 100 visits no_memory
      (
        omega arith,
        omega arith,
        (omega arith, omega arith, (omega arith, omega arith, (omega arith, omega arith, tt))),
      )
      tt
