-- ===== src/Errors.antt =====
-- pkg/errors/errors.go, with the error values of the other packages: every Go `error` of the
-- modelled code is one value of `Error`, so that `errors.As` can walk a chain of wrapped errors.
mod Examples
pub mod Chain
pub use bzy_personal.Prelude.Texts.{◌<>◌}
use bzy_personal.Prelude.{
  ℕ, zero, suc, ◌/◌, ◌%◌, ◌+◌, ◌≡◌, refl, Bool, true, false, String, List, [], ◌∷◌, Option, none,
  some, ltb, if◌then◌else◌, get_elem?, str_eq,
}

-- The machine-readable classes: the constants of Go's string type `Code`, which are all that the code makes.
pub data Code : Type 0 where
  not_found already_exists invalid_argument unauthorized forbidden internal unavailable : Code
  timeout rate_limited conflict unprocessable : Code

pub Code-discrete : Discrete Code
Code-discrete = hlevel

abbrev pub code_text : Code → String
code_text not_found = "NOT_FOUND"
code_text already_exists = "ALREADY_EXISTS"
code_text invalid_argument = "INVALID_ARGUMENT"
code_text unauthorized = "UNAUTHORIZED"
code_text forbidden = "FORBIDDEN"
code_text internal = "INTERNAL"
code_text unavailable = "UNAVAILABLE"
code_text timeout = "TIMEOUT"
code_text rate_limited = "RATE_LIMITED"
code_text conflict = "CONFLICT"
code_text unprocessable = "UNPROCESSABLE"

-- `text` is `errors.New` or `fmt.Errorf` with no `%w`; `wrap p e` is `fmt.Errorf(p + "%w", e)`.
-- `domain` and `domain_caused` are `DomainError` without and with a `Cause`: code, message,
-- detail. `api` is the client's `APIError`: status, code, message, detail.
pub data Error : Type 0 where
  text : String → Error
  wrap : String → Error → Error
  domain : Code → String → String → Error
  domain_caused : Code → String → String → Error → Error
  api : ℕ → String → String → String → Error
  retryable : Error → Error
  agent_not_found provider_not_found plugin_not_found : String → Error
  max_steps_exceeded : ℕ → Error
  lock_not_acquired : Error

pub data Result {ℓ} (A : Type ℓ) : Type ℓ where
  ok : A → Result A
  err : Error → Result A

abbrev pub is_ok {ℓ} : {A : Type ℓ} → Result A → Bool
is_ok (ok a) = true
is_ok (err e) = false

-- `%d` of a number: its decimal digits.
digit : ℕ → String
digit d =
    elim (get_elem? {A = String} ("0" ∷ "1" ∷ "2" ∷ "3" ∷ "4" ∷ "5" ∷ "6" ∷ "7" ∷ "8" ∷ "9" ∷ [])
      d) [ none ↦ "" | some s ↦ s ]

digits : ℕ → ℕ → String → String
digits zero n tail = tail
digits (suc f) n tail =
    let rest = digits f (n / 10) (digit (n % 10) <> tail) in
    if ltb n 10 then digit n <> tail else rest

unfoldable pub decimal : ℕ → String
unfolding digits digit
decimal n = digits (suc n) n ""

-- `newErr`: the first of the variadic causes, if there is one, becomes the `Cause`.
pub new_err : Code → String → List Error → Error
new_err code msg [] = domain code msg ""
new_err code msg (cause ∷ _) = domain_caused code msg "" cause

-- The constructors of the package.
unfoldable pub not_found_error : String → List Error → Error
unfolding new_err
not_found_error = new_err not_found

unfoldable pub already_exists_error : String → List Error → Error
unfolding new_err
already_exists_error = new_err already_exists

unfoldable pub invalid_argument_error : String → List Error → Error
unfolding new_err
invalid_argument_error = new_err invalid_argument

unfoldable pub unauthorized_error : String → List Error → Error
unfolding new_err
unauthorized_error = new_err unauthorized

unfoldable pub forbidden_error : String → List Error → Error
unfolding new_err
forbidden_error = new_err forbidden

unfoldable pub internal_error : String → List Error → Error
unfolding new_err
internal_error = new_err internal

unfoldable pub unavailable_error : String → List Error → Error
unfolding new_err
unavailable_error = new_err unavailable

unfoldable pub rate_limited_error : String → List Error → Error
unfolding new_err
rate_limited_error = new_err rate_limited

-- `Error()` of each type of error.
unfoldable pub error_message : Error → String
unfolding decimal
error_message (text s) = s
error_message (wrap p e) = p <> error_message e
error_message (domain c m d) = "[" <> code_text c <> "] " <> m
error_message (domain_caused c m d e) = "[" <> code_text c <> "] " <> m <> ": " <> error_message e
error_message (api n c m d) =
    let start = "[" <> decimal n <> " " <> c <> "] " <> m in
    if str_eq d "" then start else start <> ": " <> d
error_message (retryable e) = "retryable: " <> error_message e
error_message (agent_not_found id) = "agent def not found: " <> id
error_message (provider_not_found id) = "provider not found: " <> id
error_message (plugin_not_found id) = "plugin not found: " <> id
error_message lock_not_acquired = "lock not acquired"
error_message (max_steps_exceeded n) = "agent exceeded max steps: " <> decimal n

-- `Unwrap()`, where the type has the method.
unfoldable pub unwrap : Error → Option Error
unwrap (wrap p e) = some e
unwrap (domain_caused c m d e) = some e
unwrap (retryable e) = some e
unwrap (text s) = none
unwrap _ = none

-- `HTTPStatus` of a `DomainError` with this code.
unfoldable pub http_status : Code → ℕ
http_status not_found = 404
http_status already_exists = 409
http_status conflict = 409
http_status invalid_argument = 400
http_status unprocessable = 400
http_status unauthorized = 401
http_status forbidden = 403
http_status rate_limited = 429
http_status timeout = 504
http_status unavailable = 503
http_status internal = 500
