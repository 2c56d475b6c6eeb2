-- ===== src/Client/Retry/Calls.antt =====
-- What the retry loop returns, and how often it calls, for calls that answer from a script.
use bzy_personal.Prelude.{
  ℕ, zero, suc, ◌+◌, ◌≤◌, ◌<◌, ◌≡◌, ◌⊎◌, inl, inr, refl, Bool, true, false, Option, none, some,
  List, [], ◌∷◌, ◌++◌, map, length, All, arith, not, ◌==◌, Bool-cases, if◌then◌else◌,
}
use bzy_personal.Prelude.Ints.{ℤ, pos, negsuc}
use bzy_personal.Errors.{Error, text, Result, ok, err}
use bzy_personal.Client.ApiError.{is_retryable}
use bzy_personal.Client.Retry.{backoff, Waits, after_wait, pause, after_call, retry_from, do_retry}

-- A script is the list of the outcomes of the calls to come. Past its end a call fails for good.
abbrev pub Script : Type 0
Script = List (Result (Unit {0}))

abbrev pub play : Script → Result (Unit {0}) × Script
play [] = (err (text "script is over"), [])
play (r ∷ rest) = (r, rest)

-- Every timer fires before the context ends.
abbrev pub undisturbed : Waits Script
undisturbed d w = (none, w)

abbrev pub is_final : Result (Unit {0}) → Bool
is_final (ok u) = true
is_final (err e) = not (is_retryable e)

module _ (int63n : ℕ → ℕ) (base max_retries : ℕ)
    (no_panic : (a : ℕ) → a < max_retries → (d : ℕ) × (backoff int63n base a ≡ some d)) where
  retry_from-script :
      (xs : List Error) (r : Result (Unit {0})) (rest : Script) (fuel attempt : ℕ)
      → All (λ e. is_retryable e ≡ true) xs
      → attempt + fuel ≡ max_retries + 1
      → length xs < fuel
      → (is_final r ≡ true) ⊎ (length xs + attempt ≡ max_retries)
      → retry_from int63n undisturbed base play max_retries fuel attempt (map err xs ++ r ∷ rest)
        ≡ some (r, rest)
  unfolding retry_from
  retry_from-script xs r rest zero attempt all sum room stop = absurd (omega arith)
  retry_from-script [] (ok u) rest (suc fuel) attempt all sum room stop = refl
  retry_from-script [] (err e) rest (suc fuel) attempt all sum room stop = ground arith
  retry_from-script (x ∷ xs) r rest (suc fuel) attempt all sum room stop =
      ground (arith, no_panic attempt, retry_from-script xs r rest fuel (attempt + 1))

  -- For a number of retries that is not negative: if no wait before the last try panics and no context ends a wait, and the calls answer with retryable errors `xs`,
  -- at most `max_retries` of them, and then with `r`, which is a success, an error that is not
  -- retryable, or the answer of the last try, then the loop returns `r` and makes no further call.
  pub do_retry-script :
      (xs : List Error) (r : Result (Unit {0})) (rest : Script)
      → All (λ e. is_retryable e ≡ true) xs
      → length xs ≤ max_retries
      → (is_final r ≡ true) ⊎ (length xs ≡ max_retries)
      → do_retry int63n undisturbed base play (pos max_retries) (map err xs ++ r ∷ rest)
        ≡ some (r, rest)
  unfolding do_retry
  do_retry-script xs r rest all room stop =
      retry_from-script xs r rest (suc max_retries) 0 all (omega arith) (omega arith)
        elim stop [ inl p ↦ inl p | inr e ↦ inr (omega arith) ]

module _ {W : Type 0} where
  -- The same call and the same waits, with a count of the calls.
  abbrev pub counted : (W → Result (Unit {0}) × W) → ℕ × W → Result (Unit {0}) × (ℕ × W)
  counted fn (n, w) = let (r, w') = fn w in (r, (suc n, w'))

  abbrev pub counting : Waits W → Waits (ℕ × W)
  counting waits d (n, w) = let (e, w') = waits d w in (e, (n, w'))

module _ {W : Type 0} (int63n : ℕ → ℕ) (waits : Waits W) (base max_retries : ℕ)
    (fn : W → Result (Unit {0}) × W) where
  Within : ℕ → ℕ → Option (Result (Unit {0}) × (ℕ × W)) → Type 0
  Within lo hi none = Unit
  Within lo hi (some (r, (n, w))) = (lo ≤ n) × (n ≤ hi)

  after_call-Within :
      (lo hi n : ℕ) (again : ℕ × W → Option (Result (Unit {0}) × (ℕ × W))) (final : Bool)
      (delay : Option ℕ) (r : Result (Unit {0})) (w : W)
      → lo ≤ n
      → n ≤ hi
      → ((w' : W) → Within lo hi (again (n, w')))
      → Within lo hi (after_call again final delay (counting waits) (r, (n, w)))
  unfolding after_call Within
  after_call-Within lo hi n again final delay (ok u) w low high h = (low, high)
  after_call-Within lo hi n again final delay (err e) w low high h =
      elim (Bool-cases (is_retryable e)) [
        | inl p ↦ rw p (tries final delay)
        | inr p ↦ rw p (low, high)
      ]
    where
      timed : (o : Option Error × W) → Within lo hi (after_wait again (o.0, (n, o.1)))
      timed (none, w') = h w'
      timed (some e', w') = (low, high)

      tries :
          (final : Bool) (delay : Option ℕ)
          → Within lo hi
              (if final then some (err e, (n, w)) else pause again delay (counting waits) (n, w))
      tries true delay = (low, high)
      tries false none = tt
      tries false (some d) = timed (waits d w)

  retry_from-calls :
      (lo hi fuel attempt n : ℕ) (w : W)
      → lo ≤ n
      → n + fuel ≤ hi
      → Within lo hi
          (retry_from int63n (counting waits) base (counted fn) max_retries fuel attempt (n, w))
  unfolding retry_from Within
  retry_from-calls lo hi zero attempt n w low high = omega arith
  retry_from-calls lo hi (suc fuel) attempt n w low high =
      after_call-Within lo hi (suc n) _ (attempt == max_retries) (backoff int63n base attempt)
        (fn w).0 (fn w).1 (omega arith) (omega arith)
        (λ w'. retry_from-calls lo hi fuel (attempt + 1) (suc n) w' (omega arith) (omega arith))

  at_most_retries :
      (n : ℕ) (w w' : W) (m : ℕ) (r : Result (Unit {0}))
      → do_retry int63n (counting waits) base (counted fn) (pos max_retries) (n, w)
        ≡ some (r, (m, w'))
      → (n + 1 ≤ m) × (m ≤ n + max_retries + 1)
  unfolding do_retry retry_from Within
  at_most_retries n w w' m r h =
      let inside =
        after_call-Within (suc n) (n + max_retries + 1) (suc n)
          (λ x. retry_from int63n (counting waits) base (counted fn) max_retries max_retries 1 x)
          (0 == max_retries) (backoff int63n base 0) (fn w).0 (fn w).1 (omega arith) (omega arith)
          (λ x.
            retry_from-calls (suc n) (n + max_retries + 1) max_retries 1 (suc n) x (omega arith)
              (omega arith)) in
      let bounds : Within (suc n) (n + max_retries + 1) (some (r, (m, w'))) = rw h at inside in
      (omega arith, omega arith)

-- Between `n` and `m` there are as many calls as the retries allow: one more than these at most, and one
-- at least, or none, and then no error, if the number is negative.
abbrev pub CallsOf : ℤ → ℕ → ℕ → Result (Unit {0}) → Type 0
CallsOf (pos max_retries) n m r = (n + 1 ≤ m) × (m ≤ n + max_retries + 1)
CallsOf (negsuc k) n m r = (m ≡ n) × (r ≡ ok tt)

module _ {W : Type 0} (int63n : ℕ → ℕ) (waits : Waits W) (base : ℕ)
    (fn : W → Result (Unit {0}) × W) where
  -- Whatever the calls and the waits do, a `do` that returns has called at least once and at most
  -- `max_retries + 1` times, if `max_retries` is not negative; if it is negative, `do` has not called
  -- at all and reports no error.
  pub do_retry-calls :
      (max_retries : ℤ) (n : ℕ) (w w' : W) (m : ℕ) (r : Result (Unit {0}))
      → do_retry int63n (counting waits) base (counted fn) max_retries (n, w) ≡ some (r, (m, w'))
      → CallsOf max_retries n m r
  unfolding do_retry
  do_retry-calls (pos k) n w w' m r h = at_most_retries int63n waits base k fn n w w' m r h
  do_retry-calls (negsuc k) n w w' m r h = (cc h, cc h)

module _ {W : Type 0} (int63n : ℕ → ℕ) (waits : Waits W) (base : ℕ)
    (fn : W → Result (Unit {0}) × W) where
  -- A first call without an error is the last.
  pub do_retry-first :
      (max_retries : ℤ) (tries : ℕ) (w w' : W)
      → max_retries ≡ pos tries
      → fn w ≡ (ok tt, w')
      → do_retry int63n waits base fn max_retries w ≡ some (ok tt, w')
  unfolding do_retry retry_from after_call
  do_retry-first max_retries tries w w' enough e = rw enough (rw (e, do_retry) refl)
