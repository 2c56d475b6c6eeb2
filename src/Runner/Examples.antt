-- ===== src/Runner/Examples.antt =====
-- A task through a stream in memory, and a worker that logs what it does.
use mathlib.Core.Path.{subst}
use mathlib.Core.List.{append-nil}
use bzy_personal.Prelude.{
  ℕ, ◌≡◌, refl, sym, true, inl, inr, Bool-cases, str_eq, String, List, [], ◌∷◌, ◌++◌, none, some,
}
use bzy_personal.Prelude.Map.{Map, lookup}
use bzy_personal.Errors.{ok}
use bzy_personal.Runtime.{Env}
use bzy_personal.Runner.Queue.{
  Task, TaskStatus, Redis, Codec, RedisQueue, Queue, streams, nil_reply, enqueue, dequeue,
}
use bzy_personal.Runner.Queue.Delivery.{enqueue-dequeue}
use bzy_personal.Runner.Worker.{Handler, Pool, neither, quit, run_worker}
use bzy_personal.Runner.Worker.Settling.{
  Note, took, handled, nacked, acked, is_none, take_notes, AllServed, nothing, IsLogged,
  run_worker-AllServed,
}

abbrev Stream : Type 0
Stream = List (Map String)

abbrev still : Env Stream
still = record { now = λ w. (7, w); fresh = λ w. ("t1", w) }

abbrev in_memory : Redis Stream
in_memory = record {
  xadd = λ s values w. (none, w ++ values ∷ []);
  xgroup_create = λ s g w. w;
  xread_group = λ g c s w. elim w [
    | [] ↦ (nil_reply, [])
    | v ∷ rest ↦ (streams ((record { id = "1-0"; values = v } ∷ []) ∷ []), rest)
  ];
  xack = λ s g id w. (none, w);
  xrange = λ s w. (ok [], w);
  xlen = λ s w. (ok 0, w);
}

abbrev task : String → TaskStatus → ℕ → Task
task id s at = record {
  id = id;
  type = "mail";
  payload = "{}";
  priority = 5;
  status = s;
  attempt = 0;
  max_attempts = 3;
  run_at = 0;
  timeout = 0;
  trace_id = "";
  worker_id = "";
  queued_at = at;
  started_at = none;
  finished_at = none;
  error = "";
  result = "";
}

abbrev codec : Codec
codec = record { marshal = λ t. ok "T"; unmarshal = λ s. ok (task "t1" TaskStatus.queued 7) }

abbrev tasks : RedisQueue
tasks = record { stream = "tasks"; dlq = "dead"; group = "g"; consumer = "w1"; max_retry = 3 }

enqueue-dequeue_example :
    let sent = (enqueue still in_memory codec tasks (task "" TaskStatus.unset 0) []).1 in
    ((dequeue in_memory codec tasks
        (enqueue still in_memory codec tasks (task "" TaskStatus.unset 0) []).2).0
      ≡ ok (some (record sent { worker_id = "w1" })))
    × (sent.id ≡ "t1")
    × (sent.status ≡ TaskStatus.queued)
    × (sent.payload ≡ "{}")
    × (sent.type ≡ "mail")
    × (sent.timeout ≡ 0)
    × (sent.max_attempts ≡ 3)
unfolding enqueue
enqueue-dequeue_example =
    enqueue-dequeue still in_memory codec tasks (λ w. w ≡ []) (task "" TaskStatus.unset 0) []
      (λ values w e sent. ("1-0", rw e refl)) (λ w e. (e, e)) refl refl (λ raw m. refl)

-- The queue holds one task at first; the world is the log.
abbrev logging : Queue (List Note)
logging = record {
  enqueue = λ t l. (none, t, l);
  dequeue = λ l. elim l [
    | [] ↦ (ok (some (task "t1" TaskStatus.queued 7)), took "t1" ∷ [])
    | n ∷ ns ↦ (ok none, n ∷ ns)
  ];
  ack = λ id r l. (none, l ++ acked id ∷ []);
  nack = λ id m l. (none, l ++ nacked id ∷ []);
  peek = λ n l. (ok [], l);
  depth = λ l. (ok 0, l);
}

abbrev mailer : Handler (List Note)
mailer = record { type = "mail"; handle = λ d t l. (none, l ++ handled t.id true ∷ []) }

abbrev pool : Pool (List Note)
pool = record { queue = logging; handlers = ("mail", mailer) ∷ []; concurrency = 1 }

taken_note : (l : List Note) → (pool.queue.dequeue l).1 ≡ l ++ take_notes (pool.queue.dequeue l).0
taken_note [] = refl
taken_note (n ∷ ns) = sym (append-nil (n ∷ ns))

mailer_note :
    (type : String) (h : Handler (List Note)) (d : ℕ) (t : Task) (l : List Note)
    → lookup type pool.handlers ≡ some h
    → (h.handle d t l).1 ≡ l ++ handled t.id (is_none (h.handle d t l).0) ∷ []
unfolding lookup
mailer_note type h d t l found = elim (Bool-cases (str_eq "mail" type)) [
  | inl p ↦
      let same : mailer ≡ h = cc (rw p at found) in
      subst (λ x. (x.handle d t l).1 ≡ l ++ handled t.id (is_none (x.handle d t l).0) ∷ []) same
        refl
  | inr p ↦ cc (rw p at found)
]

pool-IsLogged : IsLogged pool (λ l. l)
pool-IsLogged = record {
  takes = taken_note;
  acks = λ id r w. refl;
  nacks = λ id m w. refl;
  handles = mailer_note;
}

run_worker-AllServed_example : AllServed (run_worker pool (neither ∷ neither ∷ quit ∷ []) [])
run_worker-AllServed_example =
    run_worker-AllServed pool (λ l. l) pool-IsLogged (neither ∷ neither ∷ quit ∷ []) [] nothing
