-- ===== src/Files.antt =====
-- Files as the connector sees them, and the JSON text library as a parameter (src/json_compat.rs).
use baijimu_digital_employee.Base.{ℕ, String, List, ◌∷◌, ◌&&◌, Result, eqb, if◌then◌else◌}
use baijimu_digital_employee.Json.{Value}

-- What `fs::read` returns: no such file, another error with its text, or the bytes.
pub data FileRead : Type 0 where
  not_found : FileRead
  failed : String → FileRead
  bytes : List ℕ → FileRead

-- `serde_json::from_slice` and `to_vec_pretty`: third-party code, an argument of what uses it.
pub record Codec : Type 0 where
  pub from_slice : List ℕ → Result String Value
  pub to_vec : Value → List ℕ

-- `strip_utf8_bom`: `strip_prefix` of the three bytes, or the text as it is.
unfoldable pub strip_utf8_bom : List ℕ → List ℕ
strip_utf8_bom (a ∷ b ∷ c ∷ rest) =
    if eqb a 0xef && eqb b 0xbb && eqb c 0xbf then rest else a ∷ b ∷ c ∷ rest
strip_utf8_bom s = s

-- `json_compat::from_slice`
unfoldable pub from_slice : Codec → List ℕ → Result String Value
unfolding strip_utf8_bom
from_slice codec s = codec.from_slice (strip_utf8_bom s)
