-- ===== src/Runner/Worker.antt =====
-- apps/bzy-runner/internal/worker/worker.go: one worker of the pool. Queue and handlers are
-- parameters over a world of any type; the logger is left out.
pub mod Settling
use bzy_personal.Prelude.{ℕ, ◌==◌, Bool, String, List, [], ◌∷◌, Option, none, some, if◌then◌else◌}
use bzy_personal.Prelude.Map.{Map, lookup, insert}
use bzy_personal.Errors.{Error, error_message, Result, ok, err, ◌<>◌}
use bzy_personal.Runner.Queue
use bzy_personal.Runner.Queue.{Task}

-- `Handle`, with the timeout of the context that it is given.
abbrev pub Handle : Type 0 → Type 0
Handle W = ℕ → Task → W → Option Error × W

pub record Handler (W : Type 0) : Type 0 where
  pub type : String
  pub handle : Handle W

-- `Pool`: its handlers by task type, and the number of its workers.
pub record Pool (W : Type 0) : Type 0 where
  pub queue : Queue.Queue W
  pub handlers : Map (Handler W)
  pub concurrency : ℕ

unfoldable pub new_pool : {W : Type 0} → Queue.Queue W → ℕ → Pool W
new_pool q n = record { queue = q; handlers = []; concurrency = n }

unfoldable pub register : {W : Type 0} → Handler W → Pool W → Pool W
register h p = record p { handlers = insert h.type h p.handlers }

-- 5 * time.Minute
abbrev pub default_timeout : ℕ
default_timeout = 300000000000

module _ {W : Type 0} (p : Pool W) where
  -- After the handler.
  settle : Task → Option Error × W → W
  settle t (some e, w) = (p.queue.nack t.id (error_message e) w).1
  settle t (none, w) = (p.queue.ack t.id "" w).1

  handle_by : Option (Handler W) → Task → W → W
  unfolding settle
  handle_by none t w = (p.queue.nack t.id ("no handler for type: " <> t.type) w).1
  handle_by (some h) t w =
      settle t (h.handle (if t.timeout == 0 then default_timeout else t.timeout) t w)

  -- `processTask`
  unfoldable pub process_task : Task → W → W
  unfolding handle_by
  process_task t w = handle_by (lookup t.type p.handlers) t w

-- What the `select` at the head of the loop finds: the pool is shut down, the context is over, or
-- neither.
pub data Signal : Type 0 where
  quit context_done neither : Signal

module _ {W : Type 0} (p : Pool W) where
  -- The rest of a pass. After an error the worker sleeps for a second.
  taken : Result (Option Task) × W → W
  unfolding process_task
  taken (err e, w) = w
  taken (ok none, w) = w
  taken (ok (some t), w) = process_task p t w

  -- `runWorker`, for the signals of its passes. At the end of the list it is still running.
  unfoldable pub run_worker : List Signal → W → W
  unfolding taken
  run_worker [] w = w
  run_worker (quit ∷ _) w = w
  run_worker (context_done ∷ _) w = w
  run_worker (neither ∷ signals) w = run_worker signals (taken (p.queue.dequeue w))
