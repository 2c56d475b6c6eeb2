-- ===== src/Runner/Worker/Settling.antt =====
-- A worker settles what it takes.
use mathlib.Core.Path.{subst}
use mathlib.Core.List.{append_assoc, append-nil}
use bzy_personal.Prelude.{
  ℕ, ◌≡◌, refl, sym, ap, ◌∙◌, Bool, true, false, String, List, [], ◌∷◌, ◌++◌, Option, none, some,
  if◌then◌else◌, ◌==◌,
}
use bzy_personal.Prelude.Map.{lookup}
use bzy_personal.Errors.{Error, Result, ok, err, error_message, ◌<>◌}
use bzy_personal.Runner.Queue.{Task}
use bzy_personal.Runner.Worker.{
  Handler, Pool, Signal, quit, context_done, neither, default_timeout, settle, handle_by,
  process_task, taken, run_worker,
}

-- What can be seen of a worker: a task that it takes, the end of a handler and whether it ended
-- without an error, and an `Ack` or a `Nack`, by the identifier of the task.
pub data Note : Type 0 where
  took : String → Note
  handled : String → Bool → Note
  acked : String → Note
  nacked : String → Note

abbrev pub is_none : Option Error → Bool
is_none none = true
is_none (some e) = false

-- What is seen of a task that is taken, up to its settlement.
pub data Served : String → List Note → Type 0 where
  succeeded : {id : String} → Served id (took id ∷ handled id true ∷ acked id ∷ [])
  failed : {id : String} → Served id (took id ∷ handled id false ∷ nacked id ∷ [])
  unknown : {id : String} → Served id (took id ∷ nacked id ∷ [])

-- Tasks that are served one after the other.
pub data AllServed : List Note → Type 0 where
  nothing : AllServed []
  then_served :
      {before one all : List Note} {id : String}
      → AllServed before
      → Served id one
      → all ≡ before ++ one
      → AllServed all

-- What is taken from the queue, if anything.
abbrev pub take_notes : Result (Option Task) → List Note
take_notes (ok (some t)) = took t.id ∷ []
take_notes (ok none) = []
take_notes (err e) = []

-- The world keeps in `log` what is seen of the queue and of the handlers of the pool.
pub record IsLogged {W : Type 0} (p : Pool W) (log : W → List Note) : Type 0 where
  pub takes : (w : W) → log (p.queue.dequeue w).1 ≡ log w ++ take_notes (p.queue.dequeue w).0
  pub acks : (id result : String) (w : W) → log (p.queue.ack id result w).1 ≡ log w ++ acked id ∷ []
  pub nacks :
      (id message : String) (w : W) → log (p.queue.nack id message w).1 ≡ log w ++ nacked id ∷ []
  pub handles :
      (type : String) (h : Handler W) (d : ℕ) (t : Task) (w : W)
      → lookup type p.handlers ≡ some h
      → log (h.handle d t w).1 ≡ log w ++ handled t.id (is_none (h.handle d t w).0) ∷ []

module _ {W : Type 0} (p : Pool W) (log : W → List Note) (logged : IsLogged p log) where
  settle-Served :
      (before : List Note) (t : Task) (o : Option Error × W)
      → AllServed before
      → log o.1 ≡ before ++ took t.id ∷ handled t.id (is_none o.0) ∷ []
      → AllServed (log (settle p t o))
  unfolding settle
  settle-Served before t (none, w) h e = then_served h succeeded (
      logged.acks t.id "" w
      ∙ ap (λ l. l ++ acked t.id ∷ []) e
      ∙ append_assoc before (took t.id ∷ handled t.id true ∷ []) (acked t.id ∷ []))
  settle-Served before t (some x, w) h e = then_served h failed (
      logged.nacks t.id (error_message x) w
      ∙ ap (λ l. l ++ nacked t.id ∷ []) e
      ∙ append_assoc before (took t.id ∷ handled t.id false ∷ []) (nacked t.id ∷ []))

  handle_by-Served :
      (before : List Note) (o : Option (Handler W)) (t : Task) (w : W)
      → lookup t.type p.handlers ≡ o
      → AllServed before
      → log w ≡ before ++ took t.id ∷ []
      → AllServed (log (handle_by p o t w))
  unfolding handle_by
  handle_by-Served before none t w found h e = then_served h unknown (
      logged.nacks t.id ("no handler for type: " <> t.type) w
      ∙ ap (λ l. l ++ nacked t.id ∷ []) e
      ∙ append_assoc before (took t.id ∷ []) (nacked t.id ∷ []))
  handle_by-Served before (some hd) t w found h e =
      let d = if t.timeout == 0 then default_timeout else t.timeout in
      let r = hd.handle d t w in
      settle-Served before t r h (
        logged.handles t.type hd d t w found
        ∙ ap (λ l. l ++ handled t.id (is_none r.0) ∷ []) e
        ∙ append_assoc before (took t.id ∷ []) (handled t.id (is_none r.0) ∷ []))

  taken-Served :
      (before : List Note) (o : Result (Option Task) × W)
      → AllServed before
      → log o.1 ≡ before ++ take_notes o.0
      → AllServed (log (taken p o))
  unfolding taken process_task
  taken-Served before (err x, w) h e = subst AllServed (sym (e ∙ append-nil before)) h
  taken-Served before (ok none, w) h e = subst AllServed (sym (e ∙ append-nil before)) h
  taken-Served before (ok (some t), w) h e =
      handle_by-Served before (lookup t.type p.handlers) t w refl h e

  -- However long a worker runs: from a log of served tasks on, the log stays one. Each task that the
  -- worker takes is settled once, before the next is taken: by `Ack` after its handler has ended
  -- without an error, by `Nack` after its handler has ended with one, or at once if the pool has no
  -- handler of its type.
  pub run_worker-AllServed :
      (signals : List Signal) (w : W) → AllServed (log w) → AllServed (log (run_worker p signals w))
  unfolding run_worker
  run_worker-AllServed [] w h = h
  run_worker-AllServed (quit ∷ signals) w h = h
  run_worker-AllServed (context_done ∷ signals) w h = h
  run_worker-AllServed (neither ∷ signals) w h =
      run_worker-AllServed signals (taken p (p.queue.dequeue w))
        (taken-Served (log w) (p.queue.dequeue w) h (logged.takes w))
