-- ===== src/Base/OrderLaws.antt =====
-- Laws of Ordering: order_by keeps the rows, and puts them in order.
use Prim.Native.Nat.{suc, zero, ℕ, ◌≤◌}
use mathlib.Core.Bool.{Bool, false, true}
use mathlib.Core.List.{List, [], ◌∷◌}
use mathlib.Core.Logic.{inl, inr}
use mathlib.Core.Option.{none, some}
use mathlib.Core.Path.{refl, subst, ◌≡◌}
use native.Mathlib.Omega.{arith}
use ninai.Base.Ordering.{IsOrdered, first, insert_by, limit, order_by}
use ninai.Base.Rows.{All, count, length}
use ninai.Base.Tests.{Bool-cases}

module _ {ℓ} {A : Type ℓ} where
  pub All-map : {P Q : A → Type 0} → ((x : A) → P x → Q x) → (xs : List A) → All P xs → All Q xs
  All-map f [] h = tt
  All-map f (x ∷ xs) (p, ps) = (f x p, All-map f xs ps)

module _ {ℓ} {A : Type ℓ} (lt : A → A → Bool) where
  insert_by-All :
      (P : A → Type 0) (x : A) (ys : List A) → P x → All P ys → All P (insert_by lt x ys)
  unfolding insert_by
  insert_by-All P x [] p ps = (p, tt)
  insert_by-All P x (y ∷ ys) p (q, qs) = elim (Bool-cases (lt y x)) [
    | inl e ↦ rw e (q, insert_by-All P x ys p qs)
    | inr e ↦ rw e (p, (q, qs))
  ]

  pub order_by-All : (P : A → Type 0) (xs : List A) → All P xs → All P (order_by lt xs)
  unfolding order_by
  order_by-All P [] h = tt
  order_by-All P (x ∷ xs) (p, ps) = insert_by-All P x (order_by lt xs) p (order_by-All P xs ps)

  All-of_insert_by :
      (P : A → Type 0) (x : A) (ys : List A) → All P (insert_by lt x ys) → P x × All P ys
  unfolding insert_by
  All-of_insert_by P x [] = λ h. h
  All-of_insert_by P x (y ∷ ys) = elim (Bool-cases (lt y x)) [
    | inl e ↦ rw e (λ h. let r = All-of_insert_by P x ys h.1 in (r.0, (h.0, r.1)))
    | inr e ↦ rw e (λ h. h)
  ]

  pub All-of_order_by : (P : A → Type 0) (xs : List A) → All P (order_by lt xs) → All P xs
  unfolding order_by
  All-of_order_by P [] h = tt
  All-of_order_by P (x ∷ xs) h =
      let r = All-of_insert_by P x (order_by lt xs) h in (r.0, All-of_order_by P xs r.1)

  count-insert_by :
      (p : A → Bool) (x : A) (ys : List A) → count p (insert_by lt x ys) ≡ count p (x ∷ ys)
  unfolding insert_by
  count-insert_by p x [] = refl
  count-insert_by p x (y ∷ ys) = ground (arith, count-insert_by p x ys)

  -- The rows are the same ones, each as often.
  pub count-order_by : (p : A → Bool) (xs : List A) → count p (order_by lt xs) ≡ count p xs
  unfolding order_by
  count-order_by p [] = refl
  count-order_by p (x ∷ xs) =
      ground (arith, count-insert_by p x (order_by lt xs), count-order_by p xs)

  module _ (asym : (x y : A) → lt x y ≡ true → lt y x ≡ false)
      (comparable : (x y z : A) → lt y x ≡ false → lt z y ≡ false → lt z x ≡ false) where
    insert_by-IsOrdered : (x : A) (ys : List A) → IsOrdered lt ys → IsOrdered lt (insert_by lt x ys)
    unfolding insert_by
    insert_by-IsOrdered x [] h = (tt, tt)
    insert_by-IsOrdered x (y ∷ ys) (below, h) = elim (Bool-cases (lt y x)) [
      | inl e ↦
          rw e (
            insert_by-All (λ z. lt z y ≡ false) x ys (asym y x e) below,
            insert_by-IsOrdered x ys h,
          )
      | inr e ↦ rw e ((e, All-map (λ z b. comparable x y z e b) ys below), (below, h))
    ]

    pub order_by-IsOrdered : (xs : List A) → IsOrdered lt (order_by lt xs)
    unfolding order_by
    order_by-IsOrdered [] = tt
    order_by-IsOrdered (x ∷ xs) = insert_by-IsOrdered x (order_by lt xs) (order_by-IsOrdered xs)

module _ {ℓ} {A : Type ℓ} where
  pub limit-All : (P : A → Type 0) (n : ℕ) (xs : List A) → All P xs → All P (limit n xs)
  limit-All P zero xs h = tt
  limit-All P (suc n) [] h = tt
  limit-All P (suc n) (x ∷ xs) (p, ps) = (p, limit-All P n xs ps)

  pub limit-IsOrdered :
      (lt : A → A → Bool) (n : ℕ) (xs : List A) → IsOrdered lt xs → IsOrdered lt (limit n xs)
  limit-IsOrdered lt zero xs h = tt
  limit-IsOrdered lt (suc n) [] h = tt
  limit-IsOrdered lt (suc n) (x ∷ xs) (b, h) =
      (limit-All (λ y. lt y x ≡ false) n xs b, limit-IsOrdered lt n xs h)

  pub length-limit : (n : ℕ) (xs : List A) → length (limit n xs) ≤ n
  length-limit zero xs = omega arith
  length-limit (suc n) [] = omega arith
  length-limit (suc n) (x ∷ xs) = ground (arith, length-limit n xs)

-- The first row of a list has what all rows have.
module _ {ℓ} {A : Type ℓ} where
  pub some-injective : {x y : A} → some x ≡ some y → x ≡ y
  some-injective e = cc

  pub All-first : (P : A → Type 0) (xs : List A) (x : A) → first xs ≡ some x → All P xs → P x
  All-first P [] x e h = cc
  All-first P (y ∷ ys) x e (p, ps) = subst P (some-injective e) p

  pub count_of_first : (p : A → Bool) (xs : List A) → first xs ≡ none → count p xs ≡ 0
  count_of_first p [] e = refl
  count_of_first p (x ∷ xs) e = cc

  -- What comes first in an order has no row before it.
  pub first-least :
      (lt : A → A → Bool) (xs : List A) (x : A)
      → ((w : A) → lt w w ≡ false)
      → first xs ≡ some x
      → IsOrdered lt xs
      → All (λ y. lt y x ≡ false) xs
  first-least lt [] x irr e h = tt
  first-least lt (z ∷ zs) x irr e (b, h) =
      subst (λ w. All (λ y. lt y w ≡ false) (z ∷ zs)) (some-injective e) (irr z, b)
