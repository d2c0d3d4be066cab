-- ===== src/CircuitBreaker/Registry.antt =====
-- CircuitBreakerRegistry of backend/app/core/circuit_breaker.py: breakers by name, a dict in
-- insertion order.
use mathlib.Core.Option
use text.Mathlib.Text.{◌==◌ as str_eq}
use text.Mathlib.TextEquality.{eq_iff}
use text.Mathlib.TextPositions.{eq_refl}
use ninai.Base.{
  List, Option, Option-cases, String, [], arith, if◌then◌else◌, inl, inr, none, refl, some, ℕ, ◌++◌,
  ◌∷◌, ◌≡◌,
}
use ninai.CircuitBreaker.{
  CircuitBreaker, CircuitBreakerConfig, Status, default_config, get_status, new, reset,
}

abbrev pub Registry : Type 0
Registry = List (String × CircuitBreaker)

-- `self._breakers.get(name)`
unfoldable pub get : String → Registry → Option CircuitBreaker
get name [] = none
get name ((n, b) ∷ r) = if str_eq n name then some b else get name r

found_or_new :
    String
    → Option CircuitBreakerConfig
    → ℕ
    → Registry
    → Option CircuitBreaker
    → CircuitBreaker × Registry
found_or_new name config now r (some b) = (b, r)
found_or_new name config now r none =
    let b = new (Option.get_or config default_config) now in (b, r ++ (name, b) ∷ [])

unfoldable pub get_or_create :
    String → Option CircuitBreakerConfig → ℕ → Registry → CircuitBreaker × Registry
unfolding found_or_new
get_or_create name config now r = found_or_new name config now r (get name r)

unfoldable pub reset_all : ℕ → Registry → Registry
reset_all now [] = []
reset_all now ((n, b) ∷ r) = (n, reset now b) ∷ reset_all now r

unfoldable pub get_all_status : ℕ → Registry → List (String × Status)
get_all_status now [] = []
get_all_status now ((n, b) ∷ r) = (n, get_status now b) ∷ get_all_status now r

get-append :
    (name j : String) (b : CircuitBreaker) (r : Registry)
    → get name r ≡ none
    → get j (r ++ (name, b) ∷ []) ≡ (if str_eq name j then some b else get j r)
unfolding get
get-append name j b [] h = ground arith
get-append name j b ((n, c) ∷ r) h =
    ground (arith, get-append name j b r, eq_iff n j, eq_iff n name, eq_iff name j)

-- After `get_or_create` of a name, that name has the breaker that was returned, and every other
-- name has what it had.
pub get-get_or_create :
    (name j : String) (config : Option CircuitBreakerConfig) (now : ℕ) (r : Registry)
    → let (b, r') = get_or_create name config now r in
      get j r' ≡ (if str_eq name j then some b else get j r)
unfolding get_or_create
get-get_or_create name j config now r = elim (Option-cases (get name r)) [
  | inl e ↦
      rw (e, found_or_new) (get-append name j (new (Option.get_or config default_config) now) r e)
  | inr (b, e) ↦ rw (e, found_or_new) (ground (arith, e, eq_iff name j))
]

-- A second `get_or_create` of a name returns the breaker of the first, whatever configuration it
-- asks for, and creates nothing.
pub get_or_create_again :
    (name : String) (config config' : Option CircuitBreakerConfig) (now now' : ℕ) (r : Registry)
    → let (b, r') = get_or_create name config now r in get_or_create name config' now' r' ≡ (b, r')
unfolding get_or_create
get_or_create_again name config config' now now' r =
    ground (arith, get-get_or_create name name config now r, eq_refl name)

-- After `reset_all` a name has the breaker that it had, reset, or none.
pub get-reset_all :
    (name : String) (now : ℕ) (r : Registry)
    → get name (reset_all now r) ≡ Option.map (reset now) (get name r)
unfolding get reset_all
get-reset_all name now [] = refl
get-reset_all name now ((n, b) ∷ r) = ground (arith, get-reset_all name now r)
