-- ===== src/Http.antt =====
-- The error that every handler returns (`HttpError` of main.rs). The field that the source calls
-- `data` is `details`: `data` is a reserved word here.
use baijimu_digital_employee.Base.{
  ℕ, String, Option, none, some, Result, ok, err, ◌≡◌, refl, ◌⊎◌, inl, inr,
}
use baijimu_digital_employee.Json.{Value, string}

pub record HttpError : Type 0 where
  pub status : ℕ
  pub message : String
  pub code : Option Value
  pub details : Option Value

abbrev pub http_error : ℕ → String → HttpError
http_error status message = record {
  status = status;
  message = message;
  code = none;
  details = none;
}

abbrev pub internal : String → HttpError
internal message = http_error 500 message

abbrev pub coded : ℕ → String → String → Value → HttpError
coded status message code details = record {
  status = status;
  message = message;
  code = some (string code);
  details = some details;
}

abbrev pub Http {ℓ} : Type ℓ → Type ℓ
Http A = Result HttpError A

pub Http-cases {ℓ} :
    {A : Type ℓ} (r : Http A) → ((e : HttpError) × (r ≡ err e)) ⊎ ((a : A) × (r ≡ ok a))
Http-cases (err e) = inl (e, refl)
Http-cases (ok a) = inr (a, refl)
