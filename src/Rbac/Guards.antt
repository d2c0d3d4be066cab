-- ===== src/Rbac/Guards.antt =====
-- The checks over several capabilities, and the decorators.
use ninai.Base.{
  Bool, List, Option, Outcome, [], all, any, ap, arith, false, http, if◌then◌else◌, none, not,
  raise, refl, some, sym, true, ◌&&◌, ◌||◌, ◌∙◌, ◌∷◌, ◌≡◌,
}
use ninai.Rbac.{
  Capability, User, get_user_capabilities, has_all_capabilities, has_any_capability, has_capability,
  holds, require_all_capabilities, require_capability, system_admin,
}

-- The three shapes of a check, over the answers for each capability.
all_or :
    (s : Bool) (p : Capability → Bool) (cs : List Capability)
    → (if s then true else all p cs) ≡ all (λ c. if s then true else p c) cs
all_or s p [] = ground arith
all_or s p (c ∷ cs) = ground (arith, all_or s p cs)

any_or :
    (s : Bool) (p : Capability → Bool) (cs : List Capability)
    → (if s then true else any p cs) ≡ s || any (λ c. if s then true else p c) cs
any_or s p [] = ground arith
any_or s p (c ∷ cs) = ground (arith, any_or s p cs)

system_admin_all :
    (u : User) → has_capability u system_admin ≡ holds system_admin (get_user_capabilities u)
unfolding has_capability
system_admin_all u = ground arith

-- Asking for all of several capabilities is asking for each of them; asking for any of them is
-- asking for each in turn, but that a system administrator passes even when none is named.
pub several_capabilities :
    (u : User) (cs : List Capability)
    → (has_all_capabilities u cs ≡ all (has_capability u) cs)
      × (has_any_capability u cs ≡ has_capability u system_admin || any (has_capability u) cs)
unfolding has_all_capabilities has_any_capability has_capability
several_capabilities u cs =
    let s = holds system_admin (get_user_capabilities u) in
    let p = λ (c : Capability). holds c (get_user_capabilities u) in
    (
      all_or s p cs,
      any_or s p cs ∙ ap (λ b. b || any (has_capability u) cs) (sym (system_admin_all u)),
    )

if_and :
    {A : Type 0} (a b : Bool) (x y : A)
    → (if not (a && b) then x else y) ≡ (if not a then x else if not b then x else y)
if_and true b x y = refl
if_and false b x y = refl

-- An endpoint behind require_all_capabilities runs just as behind one require_capability for each
-- capability, outermost first: 401 without a user, 403 when one capability is missing, else the
-- endpoint's own outcome. With no capability named it still wants a user.
pub require_all-stacks :
    {A : Type 0} (c : Capability) (cs : List Capability) (current_user : Option User)
    (endpoint : Outcome A)
    → require_all_capabilities (c ∷ cs) current_user endpoint
      ≡ require_capability c current_user (require_all_capabilities cs current_user endpoint)
unfolding require_all_capabilities require_capability
require_all-stacks c cs none endpoint = refl
require_all-stacks c cs (some u) endpoint = rw ((several_capabilities u (c ∷ cs)).0) (
    rw ((several_capabilities u cs).0)
      (if_and (has_capability u c) (all (has_capability u) cs) (raise (http 403)) endpoint))
