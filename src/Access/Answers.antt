-- ===== src/Access/Answers.antt =====
-- What an answer of either check says: the decision or the driver's error, and the Boolean facts
-- about the two orders of tests.
use ninai.Access.{
  AccessDecision, Action, Database, TeamRole, asks_permissions, commenting, deleting, reading,
  sharing, updating, writing,
}
use ninai.Access.Checker.{check_memory_access, get_memory}
use ninai.Access.Filter.{is_reading, is_team_action}
use ninai.Access.Policy.{HasUniqueKeys, batch_permits, permitted, role_permits, verdict}
use ninai.Access.Refinement.{Decides, check_memory_access-Decides, is_allowed}
use ninai.Access.Sets.{granted}
use ninai.Base.{
  ==_iff, Bool, Bool-cases, List, Option, Outcome, [], any, arith, database_error, elem,
  elem-select, false, if◌then◌else◌, inl, inr, leb, none, not, ok, ok-injective, raise, refl,
  select, some, true, ℕ, ◌&&◌, ◌==◌, ◌||◌, ◌∙◌, ◌∷◌, ◌≡◌, ◌≤◌,
}

abbrev pub answered : Option Bool → Bool
answered none = false
answered (some b) = b

Decides-is_allowed :
    (r : Outcome AccessDecision) (b : Option Bool) → Decides r b → is_allowed r ≡ answered b
Decides-is_allowed r none h = rw h refl
Decides-is_allowed (ok d) (some b) h = h
Decides-is_allowed (raise e) (some b) h = absurd h

pub is_allowed-check :
    (db : Database) (user_id org_id id : ℕ) (action : Action) (level now : ℕ)
    → HasUniqueKeys db
    → is_allowed (check_memory_access db user_id org_id id action level now)
      ≡ answered (verdict role_permits db user_id org_id action level now (get_memory db id))
is_allowed-check db user_id org_id id action level now unique =
    Decides-is_allowed (check_memory_access db user_id org_id id action level now) _
      (check_memory_access-Decides db user_id org_id id action level now unique)

pub is_allowed-bound :
    (db : Database) (user_id org_id id : ℕ) (action : Action) (level now : ℕ)
    → HasUniqueKeys db
    → db.binds_aware ≡ true
    → is_allowed (check_memory_access db user_id org_id id action level now)
      ≡ permitted role_permits db user_id org_id action level now (get_memory db id)
is_allowed-bound db user_id org_id id action level now unique bound =
    is_allowed-check db user_id org_id id action level now unique
    ∙ answered_bound _ db.binds_aware _ bound
  where
    answered_bound : (a b p : Bool) → b ≡ true → answered (if a && not b then none else some p) ≡ p
    answered_bound a b p h = ground arith

pub and_mono : (c x y : Bool) → (x ≡ true → y ≡ true) → (c && x) ≡ true → (c && y) ≡ true
and_mono c x y h k = ground arith

pub clauses_mono :
    (in_org owner by_role by_role' share share' r r' wide : Bool) (required level level' : ℕ)
    → level ≤ level'
    → (by_role ≡ true → by_role' ≡ true)
    → (share ≡ true → share' ≡ true)
    → (r ≡ true → r' ≡ true)
    → (in_org && leb required level && (owner || (by_role || (share || (r && wide))))) ≡ true
    → (in_org && leb required level' && (owner || (by_role' || (share' || (r' && wide))))) ≡ true
clauses_mono in_org owner by_role by_role' share share' r r' wide required level level' l p q s e =
    ground arith

pub reading_asks : (a : Action) → is_team_action a ≡ false → is_reading a ≡ false
reading_asks reading h = cc
reading_asks a h = ground arith

pub nobody :
    (listed guards owner by_role share r wide : Bool)
    → owner ≡ false
    → by_role ≡ false
    → share ≡ false
    → r ≡ false
    → (listed && (guards && (owner || (by_role || (share || (r && wide)))))) ≡ false
nobody listed guards owner by_role share r wide o t s e = ground arith

pub and_right : (a b : Bool) → (a && b) ≡ true → b ≡ true
and_right a b h = ground arith

pub bool_eq : (a b : Bool) → (a ≡ true → b ≡ true) → (b ≡ true → a ≡ true) → a ≡ b
bool_eq a b h k = ground arith

-- An action that `filter_memory_ids_with_access` decides as the single check does.
abbrev pub IsBatched : Action → Type 0
IsBatched reading = Unit
IsBatched commenting = Unit
IsBatched (Action.other s) = Unit
IsBatched a = ⊥

pub batch_permits_role :
    (a : Action) (r : TeamRole) → batch_permits a r ≡ true → role_permits a r ≡ true
batch_permits_role reading r h = refl
batch_permits_role commenting r h = refl
batch_permits_role a r h = cc

pub role_permits_batch :
    (a : Action) (r : TeamRole) → IsBatched a → role_permits a r ≡ true → batch_permits a r ≡ true
role_permits_batch reading r b h = refl
role_permits_batch commenting r b h = refl
role_permits_batch (Action.other s) r b h = cc
role_permits_batch writing r b h = absurd b
role_permits_batch updating r b h = absurd b
role_permits_batch sharing r b h = absurd b
role_permits_batch deleting r b h = absurd b

-- The id is in the list that the batch returns.
abbrev pub is_listed : ℕ → Outcome (List ℕ) → Bool
is_listed id (ok l) = elem id l
is_listed id (raise e) = false

pub listed_or_raised :
    (r : Bool) (id : ℕ) (ids : List ℕ) (p : ℕ → Bool)
    → is_listed id (if r then raise database_error else ok (select p ids))
      ≡ (if r then false else (elem id ids && p id))
listed_or_raised true id ids p = refl
listed_or_raised false id ids p = elem-select p id ids

pub listed_means :
    (r l p : Bool) → (if r then false else (l && p)) ≡ true → (r ≡ false) × (l ≡ true) × (p ≡ true)
listed_means r l p h = ground arith

pub true_answer : (a b : Bool) → a ≡ false → b ≡ true → answered (if a then none else some b) ≡ true
true_answer a b h k = rw (h, k) refl

pub first_two : (a b c : Bool) → (a && b && c) ≡ true → (a && b) ≡ true
first_two a b c h = ground arith

pub and_false_right : (b : Bool) → (b && false) ≡ false
and_false_right b = ground arith

pub share_unasked : (a v : Bool) → v ≡ true → (a && true && v) ≡ false → a ≡ false
share_unasked a v h k = ground arith

pub only_owner :
    (in_org fits owner of_team of_team' share r wide : Bool)
    → of_team ≡ false
    → share ≡ false
    → r ≡ false
    → (in_org && fits && (owner || (of_team || (share || (r && wide))))) ≡ true
    → ((in_org && fits) && not (owner || of_team')) ≡ false
only_owner in_org fits owner of_team of_team' share r wide t s q h = ground arith

pub any_of_elem :
    (p : ℕ → Bool) (x : ℕ) (xs : List ℕ) → elem x xs ≡ true → p x ≡ true → any p xs ≡ true
any_of_elem p x [] h e = cc
any_of_elem p x (y ∷ ys) h e = elim (Bool-cases (y == x)) [
  | inl same ↦ rw ((==_iff y x).0 same, e) refl
  | inr other_id ↦ rw (any_of_elem p x ys (rw other_id at h) e) (or_true (p y))
]
  where
    or_true : (b : Bool) → (b || true) ≡ true
    or_true b = ground arith

pub unasked_team : (a : Action) → asks_permissions a ≡ false → is_team_action a ≡ false
unasked_team reading h = cc
unasked_team commenting h = cc
unasked_team a h = refl

pub unasked_read : (a : Action) → asks_permissions a ≡ false → is_reading a ≡ false
unasked_read reading h = cc
unasked_read a h = refl

pub returned_list :
    (r : Bool) (l l' : List ℕ) → (if r then raise database_error else ok l) ≡ ok l' → l ≡ l'
returned_list true l l' h = cc
returned_list false l l' h = ok-injective h

pub not_raised :
    (r : Bool) (l : List ℕ) → r ≡ false → (if r then raise database_error else ok l) ≡ ok l
not_raised r l h = rw h refl

pub unrefused : (a b v : Bool) → b ≡ true → (a && not b && v) ≡ false
unrefused a b v h = ground arith

pub bound_and : (a b : Bool) → b ≡ true → (a && not b) ≡ false
bound_and a b h = ground arith

pub returned_decision :
    (a p : Bool) (r : Outcome AccessDecision) (d : AccessDecision)
    → Decides r (if a then none else some p)
    → r ≡ ok d
    → d.allowed ≡ p
returned_decision true p r d h e = cc
returned_decision false p (ok c) d h e = rw⁻¹ (ok-injective e) h
returned_decision false p (raise x) d h e = absurd h

pub a_decision :
    (a p : Bool) (r : Outcome AccessDecision)
    → Decides r (if a then none else some p)
    → a ≡ false
    → (d : AccessDecision) × (r ≡ ok d)
a_decision true p r h e = cc
a_decision false p (ok d) h e = (d, refl)
a_decision false p (raise x) h e = absurd h

pub by_role_alone :
    (in_org fits owner by_role bound granted : Bool)
    → in_org ≡ true
    → fits ≡ true
    → by_role ≡ true
    → answered (
        if ((in_org && fits) && not (owner || by_role)) && not bound
        then none
        else some (in_org && fits && (owner || (by_role || granted))))
      ≡ true
by_role_alone in_org fits owner by_role bound granted a b c = rw (a, b, c) (ground arith)

pub neither : (r b : Bool) → b ≡ false → (if r then false else b) ≡ false
neither r b h = ground arith
