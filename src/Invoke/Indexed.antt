-- ===== src/Invoke/Indexed.antt =====
-- The indexes of a merged list, and the list's ids as a function of the incoming ids.
use baijimu_digital_employee.Base.{
  ℕ, zero, suc, ◌≡◌, refl, ap, ◌⊎◌, inl, inr, String, Bool, true, false, Option, none, some, List,
  [], ◌∷◌, ◌++◌, arith, ◌==◌, eq_iff, eq_refl, All, length, get_elem?, set, map, any, if◌then◌else◌,
  Bool-cases,
}
use baijimu_digital_employee.Json.{Value}
use baijimu_digital_employee.Map
use baijimu_digital_employee.Map.{Map, string_order, same}
use baijimu_digital_employee.Invoke.Threads.{logical_thread_id}

abbrev pub is_id : String → Option String → Bool
is_id id none = false
is_id id (some s) = s == id

-- A list of ids with one more at its end, unless it is an id that is there already. An entry without an
-- id is always added.
abbrev pub push_new : List (Option String) → Option String → List (Option String)
push_new ids none = ids ++ none ∷ []
push_new ids (some id) = if any (is_id id) ids then ids else ids ++ some id ∷ []

abbrev pub first_occurrences : List (Option String) → List (Option String) → List (Option String)
first_occurrences ids [] = ids
first_occurrences ids (o ∷ os) = first_occurrences (push_new ids o) os

abbrev pub shown : List Value → List (Option String)
shown l = map logical_thread_id l

-- The map has each id that is shown, at the one index where it is shown.
abbrev pub Indexes : List (Option String) → Map String ℕ → Type 0
Indexes ids m =
    ((id : String) (i : ℕ) → Map.get m id ≡ some i → get_elem? ids i ≡ some (some id))
    × ((id : String) (i : ℕ) → get_elem? ids i ≡ some (some id) → Map.get m id ≡ some i)

module _ {ℓ} {A : Type ℓ} where
  pub get_elem?-append_inv :
      (xs : List A) (a b : A) (i : ℕ)
      → get_elem? (xs ++ a ∷ []) i ≡ some b
      → (get_elem? xs i ≡ some b) ⊎ ((i ≡ length xs) × (a ≡ b))
  get_elem?-append_inv [] a b zero h = inr (refl, cc)
  get_elem?-append_inv [] a b (suc i) h = cc
  get_elem?-append_inv (x ∷ xs) a b zero h = inl h
  get_elem?-append_inv (x ∷ xs) a b (suc i) h = elim (get_elem?-append_inv xs a b i h) [
    | inl p ↦ inl p
    | inr p ↦ inr (ap suc p.0, p.1)
  ]

  pub get_elem?-map_inv {κ} :
      {B : Type κ} (f : A → B) (xs : List A) (i : ℕ) (b : B)
      → get_elem? (map f xs) i ≡ some b
      → (a : A) × (get_elem? xs i ≡ some a) × (f a ≡ b)
  get_elem?-map_inv f [] i b h = cc
  get_elem?-map_inv f (x ∷ xs) zero b h = (x, refl, cc)
  get_elem?-map_inv f (x ∷ xs) (suc i) b h = get_elem?-map_inv f xs i b h

  -- Replacing an element by one with the same image leaves the images.
  pub map-set_same {κ} :
      {B : Type κ} (f : A → B) (xs : List A) (i : ℕ) (a b : A)
      → get_elem? xs i ≡ some a
      → f b ≡ f a
      → map f (set xs i b) ≡ map f xs
  map-set_same f [] i a b h e = refl
  map-set_same f (x ∷ xs) zero a b h e = cc
  map-set_same f (x ∷ xs) (suc i) a b h e = ap (λ l. f x ∷ l) (map-set_same f xs i a b h e)

  pub All-get_elem? {κ} :
      (P : A → Type κ) (xs : List A) (i : ℕ) (a : A) → All P xs → get_elem? xs i ≡ some a → P a
  All-get_elem? P [] i a h e = cc
  All-get_elem? P (x ∷ xs) zero a h e = ground arith
  All-get_elem? P (x ∷ xs) (suc i) a h e = All-get_elem? P xs i a h.1 e

  pub All-set {κ} :
      (P : A → Type κ) (xs : List A) (i : ℕ) (a : A) → All P xs → P a → All P (set xs i a)
  All-set P [] i a h p = h
  All-set P (x ∷ xs) zero a h p = (p, h.1)
  All-set P (x ∷ xs) (suc i) a h p = (h.0, All-set P xs i a h.1 p)

pub any-get_elem? :
    (ids : List (Option String)) (id : String) (i : ℕ)
    → get_elem? ids i ≡ some (some id)
    → any (is_id id) ids ≡ true
any-get_elem? [] id i h = cc
any-get_elem? (o ∷ ids) id zero h = ground (arith, eq_refl id)
any-get_elem? (o ∷ ids) id (suc i) h = ground (arith, any-get_elem? ids id i h)

pub get_elem?-any :
    (ids : List (Option String)) (id : String)
    → any (is_id id) ids ≡ true
    → (i : ℕ) × (get_elem? ids i ≡ some (some id))
get_elem?-any [] id h = cc
get_elem?-any (none ∷ ids) id h = let (i, p) = get_elem?-any ids id h in (suc i, p)
get_elem?-any (some s ∷ ids) id h = elim (Bool-cases (s == id)) [
  | inl p ↦ (0, ap (λ t. some (some t)) ((eq_iff s id).0 p))
  | inr p ↦ let (i, q) = get_elem?-any ids id (ground arith) in (suc i, q)
]
