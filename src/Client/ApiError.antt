-- ===== src/Client/ApiError.antt =====
-- pkg/client/errors.go: the tests on a failed response, and which errors are tried again.
use bzy_personal.Prelude.{ℕ, ◌≡◌, ◌↔◌, Bool, true, false, ◌||◌, String, arith, leb, ◌==◌}
use bzy_personal.Errors.{
  Code, Error, text, api, not_found, http_status, internal, unavailable, timeout, rate_limited,
}

abbrev is_not_found : ℕ → Bool
is_not_found status = status == 404

abbrev is_unauthorized : ℕ → Bool
is_unauthorized status = status == 401

abbrev is_forbidden : ℕ → Bool
is_forbidden status = status == 403

abbrev is_rate_limited : ℕ → Bool
is_rate_limited status = status == 429

abbrev is_server_error : ℕ → Bool
is_server_error status = leb 500 status

-- The type assertion looks at the error itself, and does not unwrap it.
unfoldable pub is_retryable : Error → Bool
is_retryable (api status c m d) = status == 429 || leb 500 status
is_retryable (text s) = false
is_retryable _ = false

-- The codes that a caller may meet again with another outcome.
pub data Transient : Code → Type 0 where
  busy : Transient rate_limited
  late : Transient timeout
  down : Transient unavailable
  broken : Transient internal

-- A response that carries the status of a platform code is tried again exactly when the code is
-- rate limited, timeout, unavailable or internal, whatever the texts of the response.
pub is_retryable-http_status :
    (c : Code) (code m d : String)
    → (is_retryable (api (http_status c) code m d) ≡ true) ↔ Transient c
unfolding is_retryable http_status
is_retryable-http_status rate_limited code m d = ((λ _. busy), (λ _. ground arith))
is_retryable-http_status timeout code m d = ((λ _. late), (λ _. ground arith))
is_retryable-http_status unavailable code m d = ((λ _. down), (λ _. ground arith))
is_retryable-http_status internal code m d = ((λ _. broken), (λ _. ground arith))
is_retryable-http_status not_found code m d = ((λ h. cc), (λ t. elim t [ ]))
is_retryable-http_status _ code m d = ((λ h. cc), (λ t. elim t [ ]))
