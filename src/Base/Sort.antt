-- ===== src/Base/Sort.antt =====
-- A stable sort by a comparison: `slice::sort_by`, whose result no other stable sort can change where
-- the comparison is a total order.
use Prim.Native.Nat.{Ordering}
use mathlib.Core.List.{List, [], ◌∷◌}

-- `Ordering::then_with`
abbrev pub then_with : Ordering → Ordering → Ordering
then_with Ordering.eq o = o
then_with o _ = o

module _ {ℓ} {A : Type ℓ} (cmp : A → A → Ordering) where
  -- An element goes behind those that it is greater than.
  unfoldable pub insert_sorted : A → List A → List A
  insert_sorted a [] = a ∷ []
  insert_sorted a (b ∷ l) = elim (cmp a b) [ Ordering.gt ↦ b ∷ insert_sorted a l | _ ↦ a ∷ b ∷ l ]

  unfoldable pub sort_by : List A → List A
  unfolding insert_sorted
  sort_by [] = []
  sort_by (a ∷ l) = insert_sorted a (sort_by l)
