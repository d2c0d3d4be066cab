-- ===== src/Base/Ordering.antt =====
-- ORDER BY and LIMIT over rows. An order is given by the strict test "comes before"; rows that
-- neither precede nor follow each other keep the order of the table.
use Prim.Native.Nat.{suc, zero, ℕ}
use mathlib.Core.Bool.{Bool, false}
use mathlib.Core.List.{List, [], ◌∷◌}
use mathlib.Core.Option.{Option, none, some}
use mathlib.Core.Path.{◌≡◌}
use ninai.Base.Rows.{All}
use ninai.Base.Tests.{if◌then◌else◌}

module _ {ℓ} {A : Type ℓ} where
  unfoldable pub insert_by : (A → A → Bool) → A → List A → List A
  insert_by lt x [] = x ∷ []
  insert_by lt x (y ∷ ys) = let rest = insert_by lt x ys in if lt y x then y ∷ rest else x ∷ y ∷ ys

  unfoldable pub order_by : (A → A → Bool) → List A → List A
  order_by lt [] = []
  order_by lt (x ∷ xs) = insert_by lt x (order_by lt xs)

  abbrev pub limit : ℕ → List A → List A
  limit zero xs = []
  limit (suc n) [] = []
  limit (suc n) (x ∷ xs) = x ∷ limit n xs

  abbrev pub first : List A → Option A
  first [] = none
  first (x ∷ xs) = some x

  -- No row comes before a row that stands ahead of it.
  abbrev pub IsOrdered : (A → A → Bool) → List A → Type ℓ
  IsOrdered lt [] = Unit
  IsOrdered lt (x ∷ xs) = All (λ y. lt y x ≡ false) xs × IsOrdered lt xs
