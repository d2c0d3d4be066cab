-- ===== src/Base/Members.antt =====
-- What holds of all rows of a table, of the rows that a query keeps, and of the members.
use Prim.Native.Nat.{◌+◌}
use mathlib.Core.Bool.{Bool, false, true}
use mathlib.Core.List.{List, Mem, [], mem-cons_of_mem, mem-cons_self, ◌++◌, ◌∷◌}
use mathlib.Core.Logic.{inl, inr}
use mathlib.Core.Option.{none, some}
use mathlib.Core.Path.{refl, subst, ◌≡◌}
use native.Mathlib.Omega.{arith}
use ninai.Base.OrderLaws.{All-map, some-injective}
use ninai.Base.Rows.{All, any, count, find?, select, update}
use ninai.Base.Tests.{Bool-cases}

pub false_of_true : {A : Type 0} {b : Bool} → b ≡ false → b ≡ true → A
false_of_true e h = cc

module _ {A : Type 0} where
  pub All-Mem : (xs : List A) → All (λ x. Mem x xs) xs
  All-Mem [] = tt
  All-Mem (x ∷ xs) = (mem-cons_self, All-map (λ y m. mem-cons_of_mem x m) xs (All-Mem xs))

  -- What holds of the selected rows holds of the rows that fit.
  pub All-of_select :
      (p : A → Bool) (P : A → Type 0) (xs : List A)
      → All P (select p xs)
      → All (λ x. p x ≡ true → P x) xs
  All-of_select p P [] = λ h. tt
  All-of_select p P (x ∷ xs) = elim (Bool-cases (p x)) [
    | inl e ↦ rw e (λ h. ((λ _. h.0), All-of_select p P xs h.1))
    | inr e ↦ rw e (λ h. ((λ no. cc), All-of_select p P xs h))
  ]

  pub select-All :
      (p : A → Bool) (P : A → Type 0) (xs : List A)
      → All P xs
      → All (λ x. P x × (p x ≡ true)) (select p xs)
  select-All p P [] h = tt
  select-All p P (x ∷ xs) (h, hs) = elim (Bool-cases (p x)) [
    | inl e ↦ rw e ((h, e), select-All p P xs hs)
    | inr e ↦ rw e (select-All p P xs hs)
  ]

  pub update-All :
      (p : A → Bool) (f : A → A) (P : A → Type 0) (xs : List A)
      → ((x : A) → P x → p x ≡ true → P (f x))
      → All P xs
      → All P (update p f xs)
  update-All p f P [] k h = tt
  update-All p f P (x ∷ xs) k (h, hs) = elim (Bool-cases (p x)) [
    | inl e ↦ rw e (k x h e, update-All p f P xs k hs)
    | inr e ↦ rw e (h, update-All p f P xs k hs)
  ]

  pub append-All : (P : A → Type 0) (xs ys : List A) → All P xs → All P ys → All P (xs ++ ys)
  append-All P [] ys h k = k
  append-All P (x ∷ xs) ys (h, hs) k = (h, append-All P xs ys hs k)

  pub All-find? :
      (P : A → Type 0) (p : A → Bool) (xs : List A) (x : A) → find? p xs ≡ some x → All P xs → P x
  All-find? P p [] x = λ e h. cc
  All-find? P p (y ∷ ys) x = elim (Bool-cases (p y)) [
    | inl b ↦ rw b (λ e h. subst P (some-injective e) h.0)
    | inr b ↦ rw b (λ e h. All-find? P p ys x e h.1)
  ]

  pub find?_of_any :
      (p : A → Bool) (xs : List A) → any p xs ≡ true → (x : A) × (find? p xs ≡ some x)
  find?_of_any p [] = λ h. cc
  find?_of_any p (y ∷ ys) = elim (Bool-cases (p y)) [
    | inl b ↦ rw b (λ h. (y, refl))
    | inr b ↦ rw b (λ h. find?_of_any p ys h)
  ]

  pub any_of_find? : (p : A → Bool) (xs : List A) (x : A) → find? p xs ≡ some x → any p xs ≡ true
  any_of_find? p [] x e = cc
  any_of_find? p (y ∷ ys) x e = ground (arith, any_of_find? p ys x)

  pub count_of_find?-none : (p : A → Bool) (xs : List A) → find? p xs ≡ none → count p xs ≡ 0
  count_of_find?-none p [] e = refl
  count_of_find?-none p (y ∷ ys) e = ground (arith, count_of_find?-none p ys)

  pub count-append : (p : A → Bool) (xs ys : List A) → count p (xs ++ ys) ≡ count p xs + count p ys
  count-append p [] ys = omega arith
  count-append p (x ∷ xs) ys = ground (arith, count-append p xs ys)

  -- A change that a test does not see.
  module _ (p q : A → Bool) (f : A → A) (same : (x : A) → p (f x) ≡ p x) where
    pub any-update : (xs : List A) → any p (update q f xs) ≡ any p xs
    any-update [] = refl
    any-update (x ∷ xs) = ground (arith, same x, any-update xs)

    pub count-update : (xs : List A) → count p (update q f xs) ≡ count p xs
    count-update [] = refl
    count-update (x ∷ xs) = ground (arith, same x, count-update xs)
