-- ===== src/Runner/Scheduler/Examples.antt =====
-- A library that numbers its entries, whose world is the list of the active ones and the next number.
use mathlib.Core.Path.{subst}
use mathlib.Core.Bool.{false≢true}
use bzy_personal.Prelude.{
  ◌≡◌, ◌≢◌, refl, ap, ℕ, ◌+◌, ◌<◌, Bool, true, false, String, List, [], none, some, arith, ◌==◌,
  if◌then◌else◌, ne_of_str_eq,
}
use bzy_personal.Prelude.Map.{lookup}
use bzy_personal.Errors.{Result, ok}
use bzy_personal.Runtime.{Env}
use bzy_personal.Runner.Scheduler.{ScheduledJob, Cron, CronScheduler, add_job, remove_job}
use bzy_personal.Runner.Scheduler.Replaced.{Entries, removals, remove_job-leaves}

pub record Numbered : Type 0 where
  pub next : ℕ
  pub is_active : ℕ → Bool

abbrev numbering : Cron Numbered
numbering = record {
  add_func = λ expr at w. (
    ok w.next,
    record { next = w.next + 1; is_active = λ m. if m == w.next then true else w.is_active m },
  );
  remove = λ e w. record w { is_active = λ m. if m == e then false else w.is_active m };
  next_of = λ e w. 0;
}

abbrev Active : ℕ → Numbered → Type 0
Active m w = (w.is_active m ≡ true) × (m < w.next)

abbrev with_next : Numbered → Numbered
with_next w = record {
  next = w.next + 1;
  is_active = λ m. if m == w.next then true else w.is_active m;
}

abbrev Added : Numbered → ℕ → Numbered → Type 0
Added w e w' = Active e w' × ((m : ℕ) → Active m w → Active m w' × (m ≢ e))

self_equal : (m : ℕ) → (m == m) ≡ true
self_equal m = ground arith

below : (m n : ℕ) → m < n → m ≢ n
below m n h e = ground arith

not_equal : (m n : ℕ) → m ≢ n → (m == n) ≡ false
not_equal m n h = ground arith

with_next-Added : (w : Numbered) → Added w w.next (with_next w)
with_next-Added w = (
  (rw (self_equal w.next) refl, omega arith),
  λ m (a, b). ((rw (not_equal m w.next (below m w.next b)) a, omega (arith, b)), below m w.next b),
)

numbering-Entries : Entries numbering Active
numbering-Entries = record {
  adds = λ expr at e w w' h.
      let number : ok w.next ≡ ok e = ap {B = Result ℕ} (λ x. x.0) h in
      let world : with_next w ≡ w' = ap {B = Numbered} (λ x. x.1) h in
      let same : w.next ≡ e = cc number in
      subst (λ n. Added w n w') same (subst (λ v. Added w w.next v) world (with_next-Added w));
  removes = λ e w h. absurd (false≢true (rw (self_equal e) at h.0));
  spares = λ e m w ne h. (rw (not_equal m e ne) h.0, h.1);
}

abbrev still : Env Numbered
still = record { now = λ w. (0, w); fresh = λ w. ("id", w) }

abbrev nightly : ScheduledJob
nightly = record {
  id = "nightly";
  name = "nightly";
  cron_expr = "0 0 2 * * *";
  task_type = "report";
  payload = "{}";
  is_enabled = true;
  last_run = none;
  next_run = none;
  cron_id = 0;
}

abbrev empty : Numbered
empty = record { next = 0; is_active = λ m. false }

abbrev start : CronScheduler
start = record { heap = λ p. nightly; jobs = [] }

nobody : (k : String) (at : ℕ) → lookup k start.jobs ≡ some at → ⊥
unfolding lookup
nobody k at e = cc e

remove_job-leaves_example :
    let (r1, s1, v1) = add_job still numbering 0 start empty in
    let (r2, s2, v2) = add_job still numbering 1 s1 v1 in
    let (r3, s3, v3) = remove_job still numbering "nightly" s2 v2 in
    (r1 ≡ none)
    × (r2 ≡ none)
    × (r3 ≡ none)
    × (lookup "nightly" s3.jobs ≡ none)
    × ((ks : List String) → Active 0 (removals still numbering ks s3 v3))
    × (¬ Active 1 v3)
remove_job-leaves_example =
    remove_job-leaves still numbering Active numbering-Entries start 0 1 0 1 "nightly" empty
      (with_next empty) (with_next (with_next empty)) (below 0 1 (omega arith))
      (ne_of_str_eq "nightly" "" refl) refl refl (λ k at e. absurd (nobody k at e)) refl refl
