-- ===== src/Api/Errors.antt =====
-- The exceptions that the routes of src/llm_home_lab/api/app.py raise, and the answers that the
-- exception handlers make of them. An exception without a handler is answered with 500.
use llm_home_lab.Base.{ℕ, String, ◌≡◌, refl, ◌⊎◌, inl, inr}
use llm_home_lab.Leases.Models.{
  LeaseError, lease_invalid, lease_refused, lease_not_held, lease_ended, lease_not_found,
  host_not_registered,
}

pub data AppError : Type 0 where
  validation_error : AppError
  backend_timeout : AppError
  backend_error : AppError
  no_available_backend : AppError
  unknown_host : String → AppError
  model_not_available : String → AppError
  model_capacity_exceeded : String → AppError
  lease_error : LeaseError → AppError
  zero_division : AppError
  key_error : String → AppError
  cancelled : AppError
  other_error : AppError

pub record ErrorResponse : Type 0 where
  pub status_code : ℕ
  pub error_type : String
  pub code : String

abbrev pub error_response : ℕ → String → String → ErrorResponse
error_response status_code error_type code = record {
  status_code = status_code;
  error_type = error_type;
  code = code;
}

abbrev pub on_lease_error : LeaseError → ErrorResponse
on_lease_error (lease_refused reason roster) =
    error_response 409 "invalid_request_error" "lease_refused"
on_lease_error (lease_invalid reason) = error_response 400 "invalid_request_error" "lease_invalid"
on_lease_error lease_not_held = error_response 403 "invalid_request_error" "lease_not_held"
on_lease_error (lease_ended host_id holder) =
    error_response 409 "invalid_request_error" "lease_ended"
on_lease_error (lease_not_found host_id) =
    error_response 404 "invalid_request_error" "lease_not_found"
on_lease_error (host_not_registered host_id) =
    error_response 404 "invalid_request_error" "host_not_registered"

-- The handler of each exception; `BackendTimeoutError` has its own beside `BackendError`.
unfoldable pub response_of : AppError → ErrorResponse
response_of validation_error = error_response 400 "invalid_request_error" "invalid_request"
response_of backend_timeout = error_response 504 "backend_error" "backend_timeout"
response_of backend_error = error_response 503 "backend_error" "backend_unavailable"
response_of no_available_backend = error_response 503 "backend_error" "no_available_backend"
response_of (unknown_host host_id) =
    error_response 404 "invalid_request_error" "host_not_registered"
response_of (model_not_available model) =
    error_response 400 "invalid_request_error" "model_not_available"
response_of (model_capacity_exceeded model) =
    error_response 503 "backend_error" "model_capacity_exceeded"
response_of (lease_error e) = on_lease_error e
response_of zero_division = error_response 500 "" ""
response_of (key_error k) = error_response 500 "" ""
response_of cancelled = error_response 500 "" ""
response_of other_error = error_response 500 "" ""

pub data Result {ℓ} (A : Type ℓ) : Type ℓ where
  ok : A → Result A
  raised : AppError → Result A

infixl 5 ◌>>=◌
abbrev pub ◌>>=◌ {ℓ κ} : {A : Type ℓ} {B : Type κ} → Result A → (A → Result B) → Result B
ok a >>= f = f a
raised e >>= f = raised e

pub Result-cases {ℓ} :
    {A : Type ℓ} (r : Result A) → ((e : AppError) × (r ≡ raised e)) ⊎ ((a : A) × (r ≡ ok a))
Result-cases (raised e) = inl (e, refl)
Result-cases (ok a) = inr (a, refl)

pub ok-injective {ℓ} : {A : Type ℓ} {a b : A} → ok a ≡ ok b → a ≡ b
ok-injective e = cc
