-- ===== src/Client/Retry.antt =====
-- pkg/client/retry.go: the retry loop and its waits. The call that is retried, the random draw and
-- the outcome of each wait are parameters, over a world of any type. `none` is a panic.
pub mod Calls
mod Examples
use bzy_personal.Prelude.{
  ℕ, zero, suc, ◌+◌, ◌*◌, ◌/◌, ◌%◌, ◌^◌, ◌≤◌, ◌<◌, ◌≡◌, refl, Bool, true, false, not, Option, none,
  some, arith, ltb, leb, ◌==◌, if◌then◌else◌,
}
use bzy_personal.Prelude.Ints.{ℤ, pos, negsuc}
use bzy_personal.Errors.{Error, Result, ok, err}
use bzy_personal.Client.ApiError.{is_retryable}

-- 30 * time.Second
abbrev pub max_wait : ℕ
max_wait = 30000000000

-- The rest of `backoff`, for the product as an int64 bit pattern.
unfoldable pub jitter : (ℕ → ℕ) → ℕ → Option ℕ
jitter int63n product =
    let exp = if ltb max_wait product then max_wait else product in
    if leb (2 ^ 63) product
    then none
    else if exp / 4 == 0
    then none
    else some (exp + int63n (exp / 4))

-- `backoff`: durations are int64 nanoseconds, so the product wraps, and from 2 ^ 63 on it is
-- negative. `rand.Int63n` panics where its argument is not positive. `attempt` is below 63, where
-- the conversion of `math.Pow(2, attempt)` is exact.
unfoldable pub backoff : (ℕ → ℕ) → ℕ → ℕ → Option ℕ
unfolding jitter
backoff int63n base attempt = jitter int63n ((2 ^ attempt * base) % 2 ^ 64)

abbrev pub capped : ℕ → ℕ
capped n = if ltb max_wait n then max_wait else n

jitter_lem :
    (int63n : ℕ → ℕ) (x : ℕ)
    → int63n (capped x / 4) < capped x / 4
    → 4 ≤ x
    → x < 2 ^ 63
    → jitter int63n x ≡ some (capped x + int63n (capped x / 4))
unfolding jitter
jitter_lem int63n x draw room small = ground arith

product_fits : (x : ℕ) → x < 2 ^ 63 → x % 2 ^ 64 ≡ x
product_fits x small = omega arith

capped_quarter : (x : ℕ) → 4 ≤ x → 0 < capped x / 4
capped_quarter x h = ground arith

capped_le : (x : ℕ) → capped x ≤ max_wait
capped_le x = ground arith

-- A wait is at least the doubled base, capped at 30 seconds, and less than a quarter longer: it
-- never panics if the doubled base is at least 4 ns and does not overflow, and the random draw is
-- below its argument.
pub backoff_bounds :
    (int63n : ℕ → ℕ) (base attempt : ℕ)
    → ((n : ℕ) → 0 < n → int63n n < n)
    → 4 ≤ 2 ^ attempt * base
    → 2 ^ attempt * base < 2 ^ 63
    → (wait : ℕ) × (backoff int63n base attempt ≡ some wait)
      × (capped (2 ^ attempt * base) ≤ wait)
      × (4 * wait < 5 * capped (2 ^ attempt * base))
      × (wait < 37500000000)
unfolding backoff
backoff_bounds int63n base attempt draw room small =
    let x = 2 ^ attempt * base in
    let drawn = draw (capped x / 4) (capped_quarter x room) in
    (
      capped x + int63n (capped x / 4),
      rw (product_fits x small) (jitter_lem int63n x drawn room small),
      omega arith,
      omega (arith, drawn),
      omega (arith, drawn, capped_le x),
    )

-- With a base below 4 ns the first wait panics, whatever the draw: `rand.Int63n(0)`.
pub backoff_panics : (int63n : ℕ → ℕ) (base : ℕ) → base < 4 → backoff int63n base 0 ≡ none
unfolding backoff jitter
backoff_panics int63n base h = ground arith

-- How the `select` between the context and the timer of a wait ends: `some e` is `ctx.Err()`.
abbrev pub Waits : Type 0 → Type 0
Waits W = ℕ → W → Option Error × W

module _ {W : Type 0} where
  -- The branch of the loop after a failed call with a retryable error and tries left.
  after_wait :
      (W → Option (Result (Unit {0}) × W)) → Option Error × W → Option (Result (Unit {0}) × W)
  after_wait again (none, w) = again w
  after_wait again (some e, w) = some (err e, w)

  pause :
      (W → Option (Result (Unit {0}) × W)) → Option ℕ → Waits W → W → Option (Result (Unit {0}) × W)
  unfolding after_wait
  pause again none waits w = none
  pause again (some d) waits w = after_wait again (waits d w)

  -- The body of the loop, after the call.
  after_call :
      (W → Option (Result (Unit {0}) × W))
      → Bool
      → Option ℕ
      → Waits W
      → Result (Unit {0}) × W
      → Option (Result (Unit {0}) × W)
  unfolding pause
  after_call again final delay waits (ok u, w) = some (ok u, w)
  after_call again final delay waits (err e, w) =
      if not (is_retryable e)
      then some (err e, w)
      else if final
      then some (err e, w)
      else pause again delay waits w

module _ {W : Type 0} (int63n : ℕ → ℕ) (waits : Waits W) (base : ℕ)
    (fn : W → Result (Unit {0}) × W) where
  -- The loop from a round on, if `MaxRetries` is not negative. `fuel` is the number of rounds left, `max_retries + 1 - attempt`.
  retry_from : ℕ → ℕ → ℕ → W → Option (Result (Unit {0}) × W)
  unfolding after_call
  retry_from max_retries zero attempt w = some (ok tt, w)
  retry_from max_retries (suc fuel) attempt w =
      after_call (λ w'. retry_from max_retries fuel (attempt + 1) w') (attempt == max_retries)
        (backoff int63n base attempt) waits (fn w)

  -- `Client.do`. The test `attempt <= MaxRetries` fails at once for a negative `MaxRetries`, an `int`.
  unfoldable pub do_retry : ℤ → W → Option (Result (Unit {0}) × W)
  unfolding retry_from
  do_retry (pos max_retries) w = retry_from max_retries (suc max_retries) 0 w
  do_retry (negsuc n) w = some (ok tt, w)
