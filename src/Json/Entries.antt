-- ===== src/Json/Entries.antt =====
-- A property of each entry of an object.
use baijimu_digital_employee.Base.{String, ◌≡◌, ◌≢◌, refl, ◌∙◌, some, All, arith, eq_iff, eq-false}
use baijimu_digital_employee.Json.Data.{Value, Fields, field, end}
use baijimu_digital_employee.Json.Object
use baijimu_digital_employee.Json.Laws.{get-insert}

module _ (P : String → Value → Type 0) where
  abbrev pub Entries : Fields → Type 0
  Entries end = Unit
  Entries (field k v fs) = P k v × Entries fs

  pub Entries-insert :
      (fs : Fields) (k : String) (v : Value) → Entries fs → P k v → Entries (Object.insert fs k v)
  unfolding Object.insert
  Entries-insert end k v h p = (p, tt)
  Entries-insert (field j w fs) k v h p = ground (arith, Entries-insert fs k v h.1 p)

  pub Entries-get :
      (fs : Fields) (k : String) (v : Value) → Entries fs → Object.get fs k ≡ some v → P k v
  unfolding Object.get
  Entries-get end k v h e = cc
  Entries-get (field j w fs) k v h e = grind (arith, Entries-get fs k v, eq_iff j k)

  pub Entries-to_list : (fs : Fields) → Entries fs → All (λ e. P e.0 e.1) (Object.to_list fs)
  Entries-to_list end h = tt
  Entries-to_list (field k v fs) h = (h.0, Entries-to_list fs h.1)

pub get-insert_other :
    (fs : Fields) (k j : String) (v : Value)
    → k ≢ j
    → Object.get (Object.insert fs k v) j ≡ Object.get fs j
get-insert_other fs k j v n = get-insert fs k j v ∙ rw (eq-false k j n) refl
