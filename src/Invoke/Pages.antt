-- ===== src/Invoke/Pages.antt =====
-- The cursor of an answer, as the next request reads it.
use baijimu_digital_employee.Base.{ℕ, ◌≡◌, refl, some, ltb, unwrap_or, if_cases}
use baijimu_digital_employee.Json.{Value, as_u64, get}
use baijimu_digital_employee.Invoke.Params.{usize_param}
use baijimu_digital_employee.Invoke.Catalog.{next_cursor, next_index}

-- The cursor of an answer, sent back as it is, is read as 0: only a number is read, and the cursor is a
-- text or null.
pub usize_param-next_cursor :
    (body : Value) (cursor limit total : ℕ)
    → get body "cursor" ≡ some (next_cursor cursor limit total)
    → usize_param body "cursor" 0 ≡ 0
unfolding usize_param next_cursor
usize_param-next_cursor body cursor limit total h = rw h (
    if_cases (λ v. unwrap_or (as_u64 v) 0 ≡ 0) (ltb (next_index cursor limit) total) (λ _. refl)
      (λ _. refl))
