-- ===== src/Runner/Scheduler.antt =====
-- apps/bzy-runner/internal/scheduler/scheduler.go: recurring jobs. The cron library and the queue are parameters.
pub mod Replaced
mod Examples
use bzy_personal.Prelude.{
  ℕ, Bool, true, false, String, List, [], ◌∷◌, Option, none, some, ◌==◌, str_eq, if◌then◌else◌,
}
use bzy_personal.Prelude.Map.{Map, lookup, insert, delete, values}
use bzy_personal.Prelude.Texts.{◌<>◌}
use bzy_personal.Errors.{Error, text, wrap, Result, ok, err}
use bzy_personal.Runtime.{Env, Json}
use bzy_personal.Runner.Queue.{Task, TaskStatus, Queue, priority_normal}

pub record ScheduledJob : Type 0 where
  pub id : String
  pub name : String
  pub cron_expr : String
  pub task_type : String
  pub payload : Json
  pub is_enabled : Bool
  pub last_run : Option ℕ
  pub next_run : Option ℕ
  pub cron_id : ℕ

-- `cron.Cron`: `AddFunc` of an expression, for the job at an address, `Remove`, and the next time of an entry.
pub record Cron (W : Type 0) : Type 0 where
  pub add_func : String → ℕ → W → Result ℕ × W
  pub remove : ℕ → W → W
  pub next_of : ℕ → W → ℕ

-- The jobs are shared with their callers and with cron: `heap` is what stands at an address, and `jobs` maps an
-- identifier to an address.
pub record CronScheduler : Type 0 where
  pub heap : ℕ → ScheduledJob
  pub jobs : Map ℕ

unfoldable pub new_cron_scheduler : (ℕ → ScheduledJob) → CronScheduler
new_cron_scheduler heap = record { heap = heap; jobs = [] }

unfoldable pub write : ℕ → ScheduledJob → (ℕ → ScheduledJob) → ℕ → ScheduledJob
write at job heap p = if p == at then job else heap p

module _ {W : Type 0} (env : Env W) (cron : Cron W) where
  with_id : ScheduledJob → W → ScheduledJob × W
  with_id job w =
      if str_eq job.id ""
      then (let (id, w') = env.fresh w in (record job { id = id }, w'))
      else (job, w)

  after_add : ℕ → ScheduledJob → CronScheduler → Result ℕ × W → Option Error × CronScheduler × W
  unfolding write
  after_add at job s (err e, w) = (
    some (wrap ("invalid cron expression \"" <> (job.cron_expr <> "\": ")) e),
    record s { heap = write at job s.heap },
    w,
  )
  after_add at job s (ok entry, w) =
      let job' : ScheduledJob = record job {
        cron_id = entry;
        next_run = some (cron.next_of entry w);
      } in
      (none, record s { heap = write at job' s.heap; jobs = insert job.id at s.jobs }, w)

  -- `AddJob` of the job at an address. The error quotes the expression, without escapes.
  unfoldable pub add_job : ℕ → CronScheduler → W → Option Error × CronScheduler × W
  unfolding with_id after_add
  add_job at s w =
      let (job, w') = with_id (s.heap at) w in
      after_add at job s (cron.add_func job.cron_expr at w')

  remove_found : String → CronScheduler → W → Option ℕ → Option Error × CronScheduler × W
  remove_found id s w none = (some (text ("job not found: " <> id)), s, w)
  remove_found id s w (some at) =
      (none, record s { jobs = delete id s.jobs }, cron.remove (s.heap at).cron_id w)

  -- `RemoveJob`
  unfoldable pub remove_job : String → CronScheduler → W → Option Error × CronScheduler × W
  unfolding remove_found
  remove_job id s w = remove_found id s w (lookup id s.jobs)

  refreshed : List ℕ → (ℕ → ScheduledJob) → W → ℕ → ScheduledJob
  unfolding write
  refreshed [] heap w = heap
  refreshed (p ∷ ps) heap w =
      refreshed ps
        (write p (record (heap p) { next_run = some (cron.next_of (heap p).cron_id w) }) heap) w

  -- `ListJobs`: the addresses of the jobs, in the order of the range, with their next times written.
  unfoldable pub list_jobs : CronScheduler → W → List ℕ × CronScheduler
  unfolding refreshed
  list_jobs s w = (values s.jobs, record s { heap = refreshed (values s.jobs) s.heap w })

  -- `runJob`, which cron calls for the job at an address. An error of the queue is logged.
  unfoldable pub run_job : Queue W → ℕ → CronScheduler → W → CronScheduler × W
  unfolding write
  run_job q at s w =
      let (now, w1) = env.now w in
      let (id, w2) = env.fresh w1 in
      let job = s.heap at in
      let task : Task = record {
        id = id;
        type = job.task_type;
        payload = job.payload;
        priority = priority_normal;
        status = TaskStatus.unset;
        attempt = 0;
        max_attempts = 3;
        run_at = 0;
        timeout = 1800000000000;
        trace_id = "";
        worker_id = "";
        queued_at = 0;
        started_at = none;
        finished_at = none;
        error = "";
        result = "";
      } in
      let (logged, t, w3) = q.enqueue task w2 in
      (record s { heap = write at (record job { last_run = some now }) s.heap }, w3)
