-- ===== src/Map/Laws.antt =====
-- Lookups after each operation of a map.
use baijimu_digital_employee.Base.{
  ◌≡◌, refl, true, false, none, some, [], ◌∷◌, arith, All, if◌then◌else◌,
}
use baijimu_digital_employee.Map.{Order, Map, same, get, insert, remove, contains_key}

module _ {ℓ} {K : Type 0} {V : Type ℓ} ⦃o : Order K⦄ where
  pub get-insert :
      (m : Map K V) (k j : K) (v : V)
      → get (insert m k v) j ≡ (if same k j then some v else get m j)
  unfolding get insert
  get-insert [] k j v = refl
  get-insert ((i, w) ∷ m) k j v = grind (arith, get-insert m k j v, o.path_of_eq, o.self)

  pub get-remove :
      (m : Map K V) (k j : K) → get (remove m k) j ≡ (if same k j then none else get m j)
  unfolding get remove
  get-remove [] k j = ground arith
  get-remove ((i, w) ∷ m) k j = grind (arith, get-remove m k j, o.path_of_eq, o.self)

  pub get-insert_self : (m : Map K V) (k : K) (v : V) → get (insert m k v) k ≡ some v
  get-insert_self m k v = grind (arith, get-insert m k k v, o.self k)

  pub get-insert_other :
      (m : Map K V) (k j : K) (v : V) → same k j ≡ false → get (insert m k v) j ≡ get m j
  get-insert_other m k j v h = grind (arith, get-insert m k j v)

module _ {K : Type 0} ⦃o : Order K⦄ where
  pub same_path : (a b : K) → same a b ≡ true → a ≡ b
  same_path a b h = ground (arith, o.path_of_eq a b)

module _ {ℓ κ} {K : Type 0} {V : Type ℓ} (P : V → Type κ) ⦃o : Order K⦄ where
  pub All-insert :
      (m : Map K V) (k : K) (v : V) → All (λ e. P e.1) m → P v → All (λ e. P e.1) (insert m k v)
  unfolding insert
  All-insert [] k v h p = (p, tt)
  All-insert ((j, w) ∷ m) k v h p = ground (arith, All-insert m k v h.1 p)

  pub All-get : (m : Map K V) (k : K) (v : V) → All (λ e. P e.1) m → get m k ≡ some v → P v
  unfolding get
  All-get [] k v h e = cc
  All-get ((j, w) ∷ m) k v h e = ground (arith, All-get m k v h.1)

module _ {ℓ} {K : Type 0} {V : Type ℓ} ⦃o : Order K⦄ where
  -- A second insertion at a key replaces the first.
  pub insert-insert : (m : Map K V) (k : K) (v w : V) → insert (insert m k v) k w ≡ insert m k w
  unfolding insert
  insert-insert [] k v w = ground (arith, o.self k)
  insert-insert ((j, u) ∷ m) k v w = ground (arith, o.self k, insert-insert m k v w)

module _ {ℓ} {K : Type 0} {V : Type ℓ} ⦃o : Order K⦄ where
  pub contains_key-insert :
      (m : Map K V) (k j : K) (v : V)
      → contains_key (insert m k v) j ≡ (if same k j then true else contains_key m j)
  unfolding contains_key
  contains_key-insert m k j v = grind (arith, get-insert m k j v)

  pub contains_key-remove :
      (m : Map K V) (k j : K)
      → contains_key (remove m k) j ≡ (if same k j then false else contains_key m j)
  unfolding contains_key
  contains_key-remove m k j = grind (arith, get-remove m k j)
