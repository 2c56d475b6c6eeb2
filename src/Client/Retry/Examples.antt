-- ===== src/Client/Retry/Examples.antt =====
-- The retry loop at concrete waits and scripts.
use bzy_personal.Prelude.{
  ℕ, zero, suc, ◌+◌, ◌*◌, ◌^◌, ◌≤◌, ◌<◌, ◌≡◌, inl, refl, [], ◌∷◌, none, some, arith,
}
use bzy_personal.Prelude.Ints.{pos, negsuc}
use bzy_personal.Errors.{Error, api, text, ok, err}
use bzy_personal.Client.ApiError.{is_retryable}
use bzy_personal.Client.Retry.{
  backoff, jitter, capped, retry_from, after_call, do_retry, backoff_bounds, backoff_panics,
}
use bzy_personal.Client.Retry.Calls.{play, undisturbed, do_retry-script, do_retry-calls}

abbrev no_draw : ℕ → ℕ
no_draw n = 0

abbrev busy_answer : Error
busy_answer = api 429 "RATE_LIMITED" "slow down" ""

-- 100 ms doubled three times.
backoff_bounds_example :
    (wait : ℕ) × (backoff no_draw 100000000 3 ≡ some wait)
    × (capped (2 ^ 3 * 100000000) ≤ wait)
    × (4 * wait < 5 * capped (2 ^ 3 * 100000000))
    × (wait < 37500000000)
backoff_bounds_example = backoff_bounds no_draw 100000000 3 (λ n h. h) (omega arith) (omega arith)

backoff_panics_example : backoff no_draw 3 0 ≡ none
backoff_panics_example = backoff_panics no_draw 3 (omega arith)

one_wait : (a : ℕ) → a < 1 → (d : ℕ) × (backoff no_draw 1000 a ≡ some d)
unfolding backoff jitter
one_wait zero h = (1000, refl)
one_wait (suc a) h = absurd (omega arith)

-- A busy answer, then a success, with one more try.
do_retry-script_example :
    do_retry no_draw undisturbed 1000 play (pos 1) (err busy_answer ∷ ok tt ∷ []) ≡ some (ok tt, [])
unfolding is_retryable
do_retry-script_example =
    do_retry-script no_draw 1000 1 one_wait (busy_answer ∷ []) (ok tt) [] (refl, tt) (omega arith)
      (inl refl)

-- A call that fails for good is made once.
do_retry-calls_example : (5 + 1 ≤ 6) × (6 ≤ 5 + 3 + 1)
unfolding do_retry retry_from after_call is_retryable
do_retry-calls_example =
    do_retry-calls no_draw undisturbed 100000000 play (pos 3) 5 (err (text "no route") ∷ []) [] 6
      (err (text "no route")) refl

-- With -1 retries there is no call.
no_call :
    do_retry no_draw undisturbed 100000000 play (negsuc 0) (err (text "no route") ∷ [])
    ≡ some (ok tt, err (text "no route") ∷ [])
unfolding do_retry
no_call = refl
