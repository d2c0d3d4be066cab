-- ===== src/Base/RowLaws.antt =====
-- Laws of the queries of Rows.
use Prim.Native.Nat.{ℕ, ◌≤◌}
use mathlib.Core.Bool.{Bool, false, true, ◌&&◌, ◌||◌}
use mathlib.Core.List.{List, [], map, ◌++◌, ◌∷◌}
use mathlib.Core.Option.{none, some}
use mathlib.Core.Path.{ap, refl, sym, ◌≡◌}
use native.Mathlib.Omega.{arith}
use ninai.Base.Results.{ok, scalar_one_or_none}
use ninai.Base.Rows.{any, count, elem, find?, select}

module _ {ℓ} {A : Type ℓ} where
  pub any-select : (p q : A → Bool) (xs : List A) → any q (select p xs) ≡ any (λ x. p x && q x) xs
  any-select p q [] = refl
  any-select p q (x ∷ xs) = ground (arith, any-select p q xs)

  pub any-append : (p : A → Bool) (xs ys : List A) → any p (xs ++ ys) ≡ any p xs || any p ys
  any-append p [] ys = refl
  any-append p (x ∷ xs) ys = ground (arith, any-append p xs ys)

  pub any-or : (p q : A → Bool) (xs : List A) → any (λ x. p x || q x) xs ≡ any p xs || any q xs
  any-or p q [] = refl
  any-or p q (x ∷ xs) = ground (arith, any-or p q xs)

  pub any-and_const :
      (p : A → Bool) (b : Bool) (xs : List A) → any (λ x. p x && b) xs ≡ any p xs && b
  any-and_const p b [] = refl
  any-and_const p b (x ∷ xs) = ground (arith, any-and_const p b xs)

  pub any-const_and :
      (b : Bool) (p : A → Bool) (xs : List A) → any (λ x. b && p x) xs ≡ b && any p xs
  any-const_and true p [] = refl
  any-const_and false p [] = refl
  any-const_and b p (x ∷ xs) = ground (arith, any-const_and b p xs)

  pub any_mono :
      (p q : A → Bool)
      → ((x : A) → p x ≡ true → q x ≡ true)
      → (xs : List A) → any p xs ≡ true
      → any q xs ≡ true
  any_mono p q h [] e = cc
  any_mono p q h (x ∷ xs) e = ground (arith, h x, any_mono p q h xs)

  pub any-false : (xs : List A) → any (λ x. false) xs ≡ false
  any-false [] = refl
  any-false (x ∷ xs) = any-false xs

  pub any-congr : (p q : A → Bool) → ((x : A) → p x ≡ q x) → (xs : List A) → any p xs ≡ any q xs
  any-congr p q h [] = refl
  any-congr p q h (x ∷ xs) = ground (arith, h x, any-congr p q h xs)

  pub select-congr :
      (p q : A → Bool) → ((x : A) → p x ≡ q x) → (xs : List A) → select p xs ≡ select q xs
  select-congr p q h [] = refl
  select-congr p q h (x ∷ xs) = ground (arith, h x, select-congr p q h xs)

  pub count_mono :
      (p q : A → Bool)
      → ((x : A) → p x ≡ true → q x ≡ true)
      → (xs : List A) → count p xs ≤ count q xs
  count_mono p q h [] = omega arith
  count_mono p q h (x ∷ xs) = ground (arith, h x, count_mono p q h xs)

  any_of_count-zero :
      (p q : A → Bool) (xs : List A) → count p xs ≡ 0 → any (λ x. p x && q x) xs ≡ false
  any_of_count-zero p q [] h = refl
  any_of_count-zero p q (x ∷ xs) h = ground (arith, any_of_count-zero p q xs)

  select_of_count-zero : (p : A → Bool) (xs : List A) → count p xs ≡ 0 → select p xs ≡ []
  select_of_count-zero p [] h = refl
  select_of_count-zero p (x ∷ xs) h = ground (arith, select_of_count-zero p xs)

  -- A test that fits at most one row is answered by the first row that fits.
  pub any-and_unique :
      (p q : A → Bool) (xs : List A)
      → count p xs ≤ 1
      → any (λ x. p x && q x) xs ≡ elim (find? p xs) [ none ↦ false | some x ↦ q x ]
  any-and_unique p q [] h = refl
  any-and_unique p q (x ∷ xs) h = ground (arith, any-and_unique p q xs, any_of_count-zero p q xs)

  pub scalar_unique :
      (p : A → Bool) (xs : List A)
      → count p xs ≤ 1
      → scalar_one_or_none (select p xs) ≡ ok (find? p xs)
  scalar_unique p [] h = refl
  scalar_unique p (x ∷ xs) h = ground (arith, scalar_unique p xs, select_of_count-zero p xs)

  pub count-select : (p q : A → Bool) (xs : List A) → count p (select q xs) ≤ count p xs
  count-select p q [] = omega arith
  count-select p q (x ∷ xs) = ground (arith, count-select p q xs)

  pub count-selected : (p : A → Bool) (xs : List A) → count (λ x. true) (select p xs) ≡ count p xs
  count-selected p [] = refl
  count-selected p (x ∷ xs) = ground (arith, count-selected p xs)

  pub find?-congr :
      (p q : A → Bool) → ((x : A) → p x ≡ q x) → (xs : List A) → find? p xs ≡ find? q xs
  find?-congr p q h [] = refl
  find?-congr p q h (x ∷ xs) = ground (arith, h x, find?-congr p q h xs)

  pub find?_of_count-zero : (p : A → Bool) (xs : List A) → count p xs ≡ 0 → find? p xs ≡ none
  find?_of_count-zero p [] h = refl
  find?_of_count-zero p (x ∷ xs) h = ground (arith, find?_of_count-zero p xs)

  pub find?_fits : (p : A → Bool) (xs : List A) (x : A) → find? p xs ≡ some x → p x ≡ true
  find?_fits p [] x h = cc
  find?_fits p (y ∷ ys) x h = ground (arith, find?_fits p ys x)

  -- What a query keeps of a list that is filtered by another.
  pub find?-select :
      (p q : A → Bool) (xs : List A) → find? p (select q xs) ≡ find? (λ x. q x && p x) xs
  find?-select p q [] = refl
  find?-select p q (x ∷ xs) = ground (arith, find?-select p q xs)

module _ {ℓ κ} {A : Type ℓ} {B : Type κ} where
  pub any-map : (p : B → Bool) (f : A → B) (xs : List A) → any p (map f xs) ≡ any (λ x. p (f x)) xs
  any-map p f [] = refl
  any-map p f (x ∷ xs) = ground (arith, any-map p f xs)

  -- Two nested searches change places.
  pub any-swap :
      (r : A → B → Bool) (xs : List A) (ys : List B)
      → any (λ x. any (λ y. r x y) ys) xs ≡ any (λ y. any (λ x. r x y) xs) ys
  any-swap r [] ys = sym (any-false ys)
  any-swap r (x ∷ xs) ys = rw (any-swap r xs ys) (sym (any-or (r x) (λ y. any (λ z. r z y) xs) ys))

pub elem-select : (p : ℕ → Bool) (x : ℕ) (xs : List ℕ) → elem x (select p xs) ≡ elem x xs && p x
elem-select p x [] = refl
elem-select p x (y ∷ ys) = ground (arith, elem-select p x ys, ap p)

-- Two tests that agree on the members of a list keep the same members.
pub select-congr_elem :
    (p q : ℕ → Bool) (xs : List ℕ)
    → ((x : ℕ) → elem x xs ≡ true → p x ≡ q x)
    → select p xs ≡ select q xs
select-congr_elem p q [] h = refl
select-congr_elem p q (y ∷ ys) h =
    ground (arith, h y (ground arith), select-congr_elem p q ys (λ x e. h x (ground arith)))
