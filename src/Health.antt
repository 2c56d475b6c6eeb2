-- ===== src/Health.antt =====
-- pkg/health/health.go: the checks of a service, their concurrent run, and the readiness endpoint.
pub mod Report
mod Examples
use bzy_personal.Prelude.{
  ℕ, zero, suc, ◌+◌, Bool, true, false, String, List, [], ◌∷◌, ◌++◌, Option, none, some, ◌==◌,
  if◌then◌else◌, length, get_elem?, set, map,
}
use bzy_personal.Errors.{Error, error_message}

pub data Status : Type 0 where
  unset up down degraded : Status

-- `Fn` is a parameter: what it answers stands in the run.
pub record Check : Type 0 where
  pub name : String
  pub timeout : ℕ

pub record CheckResult : Type 0 where
  pub name : String
  pub status : Status
  pub error : String
  pub latency : ℕ

pub record HealthReport : Type 0 where
  pub status : Status
  pub checks : List CheckResult
  pub version : String
  pub at : ℕ

pub record Checker : Type 0 where
  pub checks : List Check
  pub version : String

unfoldable pub new : String → Checker
new version = record { checks = []; version = version }

-- 5 * time.Second, for a check without a timeout.
unfoldable pub register : Check → Checker → Checker
register c k =
    let c1 = record c { timeout = if c.timeout == 0 then 5000000000 else c.timeout } in
    record k { checks = k.checks ++ c1 ∷ [] }

-- What a check answered, and how long it took.
abbrev pub Answer : Type 0
Answer = Option Error × ℕ

unfoldable pub check_result : Check → Answer → CheckResult
check_result c (none, latency) = record {
  name = c.name;
  status = up;
  error = "";
  latency = latency;
}
check_result c (some e, latency) = record {
  name = c.name;
  status = down;
  error = error_message e;
  latency = latency;
}

-- The zero value, which `make` fills the slice with.
abbrev pub zero_result : CheckResult
zero_result = record { name = ""; status = unset; error = ""; latency = 0 }

abbrev pub blank : List Check → List CheckResult
blank [] = []
blank (c ∷ cs) = zero_result ∷ blank cs

-- The goroutine of check `i` writes its slot. An index with no check has no goroutine.
write_slot : Option Check → ℕ → Answer → List CheckResult → List CheckResult
unfolding check_result
write_slot none i a rs = rs
write_slot (some c) i a rs = set rs i (check_result c a)

-- The goroutines, in the order in which they finish.
finish_all : List Check → (ℕ → Answer) → List ℕ → List CheckResult → List CheckResult
unfolding write_slot
finish_all checks answer [] rs = rs
finish_all checks answer (i ∷ is) rs =
    finish_all checks answer is (write_slot (get_elem? checks i) i (answer i) rs)

abbrev is_down : Status → Bool
is_down down = true
is_down _ = false

overall : List CheckResult → Status
overall [] = up
overall (r ∷ rs) = let rest = overall rs in if is_down r.status then down else rest

-- `Run`: `order` is the order in which the goroutines finish, `now` the time at the end.
unfoldable pub run : Checker → (ℕ → Answer) → List ℕ → ℕ → HealthReport
unfolding finish_all overall
run k answer order now =
    let results = finish_all k.checks answer order (blank k.checks) in
    record { status = overall results; checks = results; version = k.version; at = now }

-- The status of the answer of `ReadinessHandler`.
unfoldable pub readiness_status : HealthReport → ℕ
readiness_status r = if is_down r.status then 503 else 200

-- The status of the answer of `LivenessHandler`.
unfoldable pub liveness_status : ℕ
liveness_status = 200
