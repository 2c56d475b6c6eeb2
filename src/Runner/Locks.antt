-- ===== src/Runner/Locks.antt =====
-- apps/bzy-runner/internal/locks/locks.go: `Acquire`, `TryAcquire`, `Release` and `Extend` of a lock. The Redis
-- commands and the timer are parameters, over a world of any type; a script runs as one step.
pub mod Exclusion
pub mod Waiting
mod Examples
use bzy_personal.Prelude.{
  ℕ, Bool, true, false, String, Option, none, some, str_eq, if◌then◌else◌, ◌/◌, zero, suc, ◌+◌, ◌*◌,
  not, ltb,
}
use bzy_personal.Errors.{
  Error, wrap, domain_caused, retryable, lock_not_acquired, Result, ok, err, ◌<>◌,
}
use bzy_personal.Runtime.{Env}

-- The commands that the package sends. `refusal` is the error of a client that cannot reach the
-- server; then nothing is changed. The time to live of SET NX is in nanoseconds, of PEXPIRE in
-- milliseconds.
pub record Redis (W : Type 0) : Type 0 where
  pub refusal : W → Option Error
  pub get : String → W → Option String
  pub set_nx : String → String → ℕ → W → Bool × W
  pub del : String → W → W
  pub pexpire : String → ℕ → W → W

pub record Lock : Type 0 where
  pub key : String
  pub token : String

abbrev pub lock_key : String → String
lock_key key = "bzy:lock:" <> key

-- `redis.call("get", KEYS[1]) == ARGV[1]`: a missing key is no text.
holds : Option String → String → Bool
holds none token = false
holds (some v) token = str_eq v token

module _ {W : Type 0} (redis : Redis W) where
  -- A script that changes the store only if the key still has the token.
  guarded : (W → W) → Lock → Option Error → W → Option Error × W
  unfolding holds
  guarded change l (some e) w = (some e, w)
  guarded change l none w = (none, if holds (redis.get l.key w) l.token then change w else w)

  unfoldable pub release : Lock → W → Option Error × W
  unfolding guarded
  release l w = guarded (redis.del l.key) l (redis.refusal w) w

  unfoldable pub extend : Lock → ℕ → W → Option Error × W
  unfolding guarded
  extend l ttl w = guarded (redis.pexpire l.key (ttl / 1000000)) l (redis.refusal w) w

  set_by : Bool × W → Lock → Result Lock × W
  set_by (true, w) l = (ok l, w)
  set_by (false, w) l = (err lock_not_acquired, w)

  set_unless : Option Error → Lock → ℕ → W → Result Lock × W
  unfolding set_by
  set_unless (some e) l ttl w = (err (wrap "lock acquire: " e), w)
  set_unless none l ttl w = set_by (redis.set_nx l.key l.token ttl w) l

module _ {W : Type 0} (env : Env W) (redis : Redis W) where
  unfoldable pub acquire : String → ℕ → W → Result Lock × W
  unfolding set_unless
  acquire key ttl w =
      let (token, w1) = env.fresh w in
      set_unless redis (redis.refusal w1) (record { key = lock_key key; token = token }) ttl w1

-- `errors.Is(err, ErrLockNotAcquired)`
is_not_acquired : Error → Bool
is_not_acquired lock_not_acquired = true
is_not_acquired (wrap p e) = is_not_acquired e
is_not_acquired (domain_caused c m d e) = is_not_acquired e
is_not_acquired (retryable e) = is_not_acquired e
is_not_acquired _ = false

-- `pause` is the `select` between the context and the timer, and `format` the text of a duration.
module _ {W : Type 0} (env : Env W) (redis : Redis W) (pause : ℕ → W → Option Error × W)
    (format : ℕ → String) (key : String) (ttl timeout : ℕ) where
  after_pause : (ℕ → W → Option (Result Lock × W)) → ℕ → Option Error × W → Option (Result Lock × W)
  after_pause again backoff (some e, w) = some (err e, w)
  after_pause again backoff (none, w) =
      again (if ltb backoff 500000000 then backoff * 2 else backoff) w

  after_acquire :
      (ℕ → W → Option (Result Lock × W)) → ℕ → Result Lock × W → Option (Result Lock × W)
  unfolding after_pause is_not_acquired
  after_acquire again backoff (ok l, w) = some (ok l, w)
  after_acquire again backoff (err e, w) =
      if not (is_not_acquired e)
      then some (err e, w)
      else after_pause again backoff (pause backoff w)

  before_deadline : (ℕ → W → Option (Result Lock × W)) → ℕ → W → Bool → Option (Result Lock × W)
  unfolding after_acquire
  before_deadline again backoff w true = after_acquire again backoff (acquire env redis key ttl w)
  before_deadline again backoff w false =
      some (err (wrap ("lock timeout after " <> (format timeout <> ": ")) lock_not_acquired), w)

  -- The loop, with the rounds that are left.
  try_from : ℕ → ℕ → ℕ → W → Option (Result Lock × W)
  unfolding before_deadline
  try_from zero deadline backoff w = none
  try_from (suc fuel) deadline backoff w =
      let (now, w') = env.now w in
      before_deadline (λ b v. try_from fuel deadline b v) backoff w' (ltb now deadline)

  -- `TryAcquire`: a round waits 50 ms at least, which bounds the rounds. `none` is a loop out of fuel.
  unfoldable pub try_acquire : W → Option (Result Lock × W)
  unfolding try_from
  try_acquire w =
      let (start, w') = env.now w in
      try_from (suc (timeout / 50000000 + 1)) (start + timeout) 50000000 w'
