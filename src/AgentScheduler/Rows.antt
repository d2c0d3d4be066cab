-- ===== src/AgentScheduler/Rows.antt =====
-- Counting and changing the rows of a table with a key.
use mathlib.Core.Path.{subst}
use ninai.Base.{
  All, Bool, Bool-cases, List, [], any, arith, count, false, inl, inr, refl, sym, true, update, ◌+◌,
  ◌∷◌, ◌≡◌, ◌≤◌, ◌⊎◌,
}

module _ {A : Type 0} where
  pub every : (P : A → Type 0) → ((x : A) → P x) → (xs : List A) → All P xs
  every P k [] = tt
  every P k (x ∷ xs) = (k x, every P k xs)

  pub count_of_not_any : (p : A → Bool) (xs : List A) → any p xs ≡ false → count p xs ≡ 0
  count_of_not_any p [] h = refl
  count_of_not_any p (x ∷ xs) h = ground (arith, count_of_not_any p xs)

  none_of_count : (q : A → Bool) (xs : List A) → count q xs ≡ 0 → All (λ y. q y ≡ false) xs
  none_of_count q [] = λ h. tt
  none_of_count q (x ∷ xs) = elim (Bool-cases (q x)) [
    | inl e ↦ rw e (λ h. absurd (omega arith))
    | inr e ↦ rw e (λ h. (refl, none_of_count q xs h))
  ]

  -- A change that makes no row fit adds none.
  pub count-update_mono :
      (p q : A → Bool) (f : A → A) (xs : List A)
      → All (λ x. q x ≡ true → p x ≡ false → p (f x) ≡ false) xs
      → count p (update q f xs) ≤ count p xs
  count-update_mono p q f [] k = omega arith
  count-update_mono p q f (x ∷ xs) (k, ks) =
      let rest : count p (update q f xs) ≤ count p xs = count-update_mono p q f xs ks in
      elim (Bool-cases (q x)) [
        | inr e ↦ rw e (ground arith)
        | inl e ↦ rw e (elim (Bool-cases (p x)) [
          | inl b ↦ rw b (ground arith)
          | inr b ↦ rw b (rw (k e b) rest)
        ])
      ]

  -- A change of few rows adds few rows that fit.
  pub count-update-le :
      (p q : A → Bool) (f : A → A) (xs : List A) → count p (update q f xs) ≤ count p xs + count q xs
  count-update-le p q f [] = omega arith
  count-update-le p q f (x ∷ xs) = ground (arith, count-update-le p q f xs)

  pub update-All-if :
      (q : A → Bool) (f : A → A) (P : A → Type 0) (xs : List A)
      → All (λ x. q x ≡ true → P (f x)) xs
      → All P xs
      → All P (update q f xs)
  update-All-if q f P [] k h = tt
  update-All-if q f P (x ∷ xs) (k, ks) (h, hs) = elim (Bool-cases (q x)) [
    | inl e ↦ rw e (k e, update-All-if q f P xs ks hs)
    | inr e ↦ rw e (h, update-All-if q f P xs ks hs)
  ]

  -- Where at most one row fits, every row that fits is the one that does.
  one_row :
      (q : A → Bool) (xs : List A)
      → count q xs ≤ 1
      → All (λ y. q y ≡ false) xs ⊎ ((z : A) × All (λ y. q y ≡ true → y ≡ z) xs)
  one_row q [] = λ h. inl tt
  one_row q (y ∷ ys) = elim (Bool-cases (q y)) [
    | inl e ↦
        rw e (λ h. inr (y, ((λ _. refl), only_false q ys y (none_of_count q ys (omega arith)))))
    | inr e ↦ rw e (λ h. elim (one_row q ys h) [
      | inl n ↦ inl (refl, n)
      | inr (z, a) ↦ inr (z, ((λ t. cc), a))
    ])
  ]
    where
      only_false :
          (q : A → Bool) (xs : List A) (z : A)
          → All (λ y. q y ≡ false) xs
          → All (λ y. q y ≡ true → y ≡ z) xs
      only_false q [] z h = tt
      only_false q (x ∷ xs) z (h, hs) = ((λ t. cc), only_false q xs z hs)

  -- `x` has what all rows have; so it is the only row with its key.
  pub only_row :
      (q : A → Bool) (xs : List A) (x : A)
      → count q xs ≤ 1
      → ((P : A → Type 0) → All P xs → P x)
      → q x ≡ true
      → All (λ y. q y ≡ true → y ≡ x) xs
  only_row q xs x h among fits = elim (one_row q xs h) [
    | inl n ↦ every (λ y. q y ≡ true → y ≡ x) (λ y _. cc (among (λ y. q y ≡ false) n, fits)) xs
    | inr (z, a) ↦
        subst (λ w. All (λ y. q y ≡ true → y ≡ w) xs) (sym (among (λ y. q y ≡ true → y ≡ z) a fits))
          a
  ]
