-- ===== src/Runner/Locks/Waiting.antt =====
-- `TryAcquire` comes to an end.
use bzy_personal.Prelude.{
  ◌≡◌, refl, ℕ, zero, suc, ◌+◌, ◌*◌, ◌/◌, ◌≤◌, Bool, true, false, String, Option, none, some, arith,
  ltb, Bool-cases, inl, inr,
}
use bzy_personal.Errors.{Error, Result, ok, err}
use bzy_personal.Runtime.{Env}
use bzy_personal.Runner.Locks.{
  Redis, Lock, acquire, is_not_acquired, after_pause, after_acquire, before_deadline, try_from,
  try_acquire,
}

-- A world has a time. A reading lies between the times before and after it, `Acquire` does not turn the clock
-- back, and a pause that passes takes as long as it is told to.
pub record Clock {W : Type 0} (env : Env W) (redis : Redis W) (pause : ℕ → W → Option Error × W)
    (time : W → ℕ) : Type 0 where
  pub reads : (w : W) → (time w ≤ (env.now w).0) × ((env.now w).0 ≤ time (env.now w).1)
  pub acquires : (key : String) (ttl : ℕ) (w : W) → time w ≤ time (acquire env redis key ttl w).1
  pub pauses : (d : ℕ) (w w' : W) → pause d w ≡ (none, w') → time w + d ≤ time w'

module _ {W : Type 0} (env : Env W) (redis : Redis W) (pause : ℕ → W → Option Error × W)
    (format : ℕ → String) (key : String) (ttl timeout : ℕ) (time : W → ℕ)
    (clock : Clock env redis pause time) where
  Ends : Option (Result Lock × W) → Type 0
  Ends x = (r : Result Lock × W) × (x ≡ some r)

  after_pause-Ends :
      (again : ℕ → W → Option (Result Lock × W)) (from backoff : ℕ) (x : Option Error × W)
      → 50000000 ≤ backoff
      → ((w' : W) → x ≡ (none, w') → from + backoff ≤ time w')
      → ((b : ℕ) (v : W) → 50000000 ≤ b → from + 50000000 ≤ time v → Ends (again b v))
      → Ends (after_pause env redis pause format key ttl timeout again backoff x)
  unfolding after_pause Ends
  after_pause-Ends again from backoff (some e, w) big late next = ((err e, w), refl)
  after_pause-Ends again from backoff (none, w) big late next =
      let passed = late w refl in
      elim (Bool-cases (ltb backoff 500000000)) [
        | inl e ↦ rw e (next (backoff * 2) w (omega arith) (omega (arith, passed)))
        | inr e ↦ rw e (next backoff w big (omega (arith, passed)))
      ]

  after_acquire-Ends :
      (again : ℕ → W → Option (Result Lock × W)) (from backoff : ℕ) (x : Result Lock × W)
      → 50000000 ≤ backoff
      → from ≤ time x.1
      → ((b : ℕ) (v : W) → 50000000 ≤ b → from + 50000000 ≤ time v → Ends (again b v))
      → Ends (after_acquire env redis pause format key ttl timeout again backoff x)
  unfolding after_acquire Ends
  after_acquire-Ends again from backoff (ok l, w) big late next = ((ok l, w), refl)
  after_acquire-Ends again from backoff (err e, w) big late next =
      elim (Bool-cases (is_not_acquired e)) [
        | inr f ↦ ((err e, w), rw f refl)
        | inl t ↦ rw t (
            after_pause-Ends again from backoff (pause backoff w) big
              (λ w' p. omega (arith, clock.pauses backoff w w' p)) next)
      ]

  before_deadline-Ends :
      (again : ℕ → W → Option (Result Lock × W)) (backoff : ℕ) (w : W) (b : Bool)
      → 50000000 ≤ backoff
      → (b ≡ true → (c : ℕ) (v : W) → 50000000 ≤ c → time w + 50000000 ≤ time v → Ends (again c v))
      → Ends (before_deadline env redis pause format key ttl timeout again backoff w b)
  unfolding before_deadline Ends
  before_deadline-Ends again backoff w false big next = (_, refl)
  before_deadline-Ends again backoff w true big next =
      after_acquire-Ends again (time w) backoff (acquire env redis key ttl w) big
        (clock.acquires key ttl w) (next refl)

  too_late : (now deadline : ℕ) → deadline ≤ now → ltb now deadline ≡ true → ⊥
  too_late now deadline h e = ground arith

  try_from-Ends :
      (rounds deadline backoff : ℕ) (w : W)
      → 50000000 ≤ backoff
      → deadline ≤ time w + rounds * 50000000
      → Ends (try_from env redis pause format key ttl timeout (suc rounds) deadline backoff w)
  unfolding try_from
  try_from-Ends zero deadline backoff w big room =
      let (read, later) = clock.reads w in
      before_deadline-Ends (λ b v. try_from env redis pause format key ttl timeout 0 deadline b v)
        backoff (env.now w).1 (ltb (env.now w).0 deadline) big
        (λ left. absurd (too_late (env.now w).0 deadline (omega (arith, read, room)) left))
  try_from-Ends (suc rounds) deadline backoff w big room =
      let (read, later) = clock.reads w in
      before_deadline-Ends
        (λ b v. try_from env redis pause format key ttl timeout (suc rounds) deadline b v) backoff
        (env.now w).1 (ltb (env.now w).0 deadline) big
        (λ left b v big' passed.
          try_from-Ends rounds deadline b v big' (omega (arith, read, later, room, passed)))

  -- `TryAcquire` returns, whoever holds the lock and for any timeout, where a reading of the clock lies between the
  -- times before and after it, `Acquire` does not turn the clock back, and a pause that passes takes its time.
  pub try_acquire-ends :
      (w : W)
      → (r : Result Lock × W) × (try_acquire env redis pause format key ttl timeout w ≡ some r)
  unfolding try_acquire Ends
  try_acquire-ends w =
      let (read, later) = clock.reads w in
      try_from-Ends (timeout / 50000000 + 1) ((env.now w).0 + timeout) 50000000 (env.now w).1
        (omega arith) (omega (arith, later))
