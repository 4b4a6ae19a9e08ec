-- ===== src/Map/Sorted.antt =====
-- A map's entries stand in the strict order of their keys.
use Prim.Native.Nat.{Ordering}
use baijimu_digital_employee.Base.{◌≡◌, refl, [], ◌∷◌, arith}
use baijimu_digital_employee.Map.{Order, Map, insert}

module _ {ℓ} {K : Type 0} {V : Type ℓ} ⦃o : Order K⦄ where
  abbrev pub HeadAbove : K → Map K V → Type 0
  HeadAbove k [] = Unit
  HeadAbove k ((j, v) ∷ m) = o.cmp k j ≡ Ordering.lt

  abbrev pub IsSorted : Map K V → Type 0
  IsSorted [] = Unit
  IsSorted ((k, v) ∷ m) = HeadAbove k m × IsSorted m

  HeadAbove-insert :
      (m : Map K V) (j k : K) (v : V)
      → HeadAbove j m
      → o.cmp j k ≡ Ordering.lt
      → HeadAbove j (insert m k v)
  unfolding insert
  HeadAbove-insert [] j k v h c = c
  HeadAbove-insert ((i, w) ∷ m) j k v h c = ground arith

  pub insert-IsSorted : (m : Map K V) (k : K) (v : V) → IsSorted m → IsSorted (insert m k v)
  unfolding insert
  insert-IsSorted [] k v h = (tt, tt)
  insert-IsSorted ((j, w) ∷ m) k v h =
      grind (arith, insert-IsSorted m k v, HeadAbove-insert m j k v, o.flip, o.path_of_eq)

  pub insert-front : (m : Map K V) (k : K) (v : V) → HeadAbove k m → insert m k v ≡ (k, v) ∷ m
  unfolding insert
  insert-front [] k v h = refl
  insert-front ((j, w) ∷ m) k v h = rw (h, insert)
