-- ===== src/Json/Data.antt =====
-- The data of `serde_json::Value`. An object is a map ordered by key (`serde_json::Map` without
-- `preserve_order`), kept as a chain of entries.
use native.Mathlib.Decide.{ℕ_discrete}
use baijimu_digital_employee.Base.{ℕ, String, Bool, true, false, String-discrete}

-- `serde_json::Number`: a u64, a negative i64 (`neg_int n` is -(n + 1)), or a double by its bits.
pub data Number : Type 0 where
  pos_int : ℕ → Number
  neg_int : ℕ → Number
  float : ℕ → Number

mutual
  -- The entries of an object.
  pub data Fields : Type 0 where
    field : String → Value → Fields → Fields
    end : Fields

  pub data Value : Type 0 where
    object : Fields → Value
    array : Items → Value
    string : String → Value
    number : Number → Value
    boolean : Bool → Value
    null : Value

  -- The elements of an array.
  pub data Items : Type 0 where
    cons : Value → Items → Items
    nil : Items

unfoldable pub Number-discrete : Discrete Number
Number-discrete = hlevel ℕ_discrete

unfoldable pub Value-discrete : Discrete Value
Value-discrete = hlevel (Number-discrete, String-discrete)

-- `==` on values.
unfoldable pub value_eq : Value → Value → Bool
unfolding Value-discrete Number-discrete String-discrete ℕ_discrete
value_eq a b = elim (Value-discrete a b) [ yes _ ↦ true | no _ ↦ false ]
