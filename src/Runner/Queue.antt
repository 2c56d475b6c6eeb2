-- ===== src/Runner/Queue.antt =====
-- apps/bzy-runner/internal/queue/queue.go: tasks, the queue interface, and its implementation on
-- Redis Streams. The Redis client and the JSON codec of a task are parameters, over a world of any
-- type.
pub mod Delivery
use bzy_personal.Prelude.{
  ℕ, zero, suc, ◌+◌, Bool, true, false, String, List, [], ◌∷◌, Option, none, some, ◌&&◌, str_eq,
  ltb, if◌then◌else◌, length, take,
}
use bzy_personal.Prelude.Map.{Map, lookup}
use bzy_personal.Errors.{Error, text, wrap, Result, ok, err}
use bzy_personal.Runtime.{Env, Json}

abbrev pub priority_low : ℕ
priority_low = 1

abbrev pub priority_normal : ℕ
priority_normal = 5

abbrev pub priority_high : ℕ
priority_high = 9

pub data TaskStatus : Type 0 where
  unset queued processing completed failed retrying dead : TaskStatus

-- Times and durations in nanoseconds. `unset` is the empty status text of a new task.
pub record Task : Type 0 where
  pub id : String
  pub type : String
  pub payload : Json
  pub priority : ℕ
  pub status : TaskStatus
  pub attempt : ℕ
  pub max_attempts : ℕ
  pub run_at : ℕ
  pub timeout : ℕ
  pub trace_id : String
  pub worker_id : String
  pub queued_at : ℕ
  pub started_at : Option ℕ
  pub finished_at : Option ℕ
  pub error : String
  pub result : Json

-- The interface `Queue`. `enqueue` writes to the task of its caller.
pub record Queue (W : Type 0) : Type 0 where
  pub enqueue : Task → W → Option Error × Task × W
  pub dequeue : W → Result (Option Task) × W
  pub ack : String → Json → W → Option Error × W
  pub nack : String → String → W → Option Error × W
  pub peek : ℕ → W → Result (List Task) × W
  pub depth : W → Result ℕ × W

-- A message of a stream.
pub record Entry : Type 0 where
  pub id : String
  pub values : Map String

-- What XREADGROUP answers: `redis.Nil` after the block time, an error, or the messages by stream.
pub data ReadAnswer : Type 0 where
  nil_reply : ReadAnswer
  failed_reply : Error → ReadAnswer
  streams : List (List Entry) → ReadAnswer

-- The commands of the Redis client that the queue calls.
pub record Redis (W : Type 0) : Type 0 where
  pub xadd : String → Map String → W → Option Error × W
  pub xgroup_create : String → String → W → W
  pub xread_group : String → String → String → W → ReadAnswer × W
  pub xack : String → String → String → W → Option Error × W
  pub xrange : String → W → Result (List Entry) × W
  pub xlen : String → W → Result ℕ × W

-- `json.Marshal` and `json.Unmarshal` at `Task`.
pub record Codec : Type 0 where
  pub marshal : Task → Result String
  pub unmarshal : String → Result Task

-- `redisQueue`, without the client. `dlq` and `max_retry` are stored and never read.
pub record RedisQueue : Type 0 where
  pub stream : String
  pub dlq : String
  pub group : String
  pub consumer : String
  pub max_retry : ℕ

module _ {W : Type 0} (env : Env W) where
  -- The fields that `Enqueue` writes before it sends the task.
  stamped : Task → W → Task × W
  stamped t w =
      let (fresh, w') = env.fresh w in
      let (id, w1) = if str_eq t.id "" then (fresh, w') else (t.id, w) in
      let (at, w2) = env.now w1 in (record t { id = id; queued_at = at; status = queued }, w2)

module _ {W : Type 0} (redis : Redis W) (codec : Codec) (q : RedisQueue) where
  send : Result String → Task → W → Option Error × Task × W
  send (err e) t w = (some e, t, w)
  send (ok raw) t w =
      let (r, w') =
        redis.xadd q.stream (("task_id", t.id) ∷ ("type", t.type) ∷ ("data", raw) ∷ []) w in
      (r, t, w')

  decoded : Result Task → Result (Option Task)
  decoded (err e) = err e
  decoded (ok t) = ok (some (record t { worker_id = q.consumer }))

  decoded_data : Option String → Result (Option Task)
  unfolding decoded
  decoded_data none = err (text "queue message missing data field")
  decoded_data (some raw) = decoded (codec.unmarshal raw)

  received : ReadAnswer → Result (Option Task)
  unfolding decoded_data
  received nil_reply = ok none
  received (failed_reply e) = err (wrap "queue dequeue: " e)
  received (streams []) = ok none
  received (streams ([] ∷ _)) = ok none
  received (streams ((msg ∷ _) ∷ _)) = decoded_data (lookup "data" msg.values)

  -- `Dequeue`: the group is created first, and an error of that is dropped.
  unfoldable pub dequeue : W → Result (Option Task) × W
  unfolding received
  dequeue w =
      let w1 = redis.xgroup_create q.stream q.group w in
      let (answer, w2) = redis.xread_group q.group q.consumer q.stream w1 in (received answer, w2)

  -- `Ack` sends the identifier of the task where Redis expects the identifier of the message.
  unfoldable pub ack : String → Json → W → Option Error × W
  ack task_id result w = redis.xack q.stream q.group task_id w

  -- `Nack` does nothing.
  unfoldable pub nack : String → String → W → Option Error × W
  nack task_id message w = (none, w)

  -- The tasks of the entries that decode. An entry without data is decoded from the empty text.
  data_or_empty : Option String → String
  data_or_empty none = ""
  data_or_empty (some raw) = raw

  add_decoded : Result Task → List Task → List Task
  add_decoded (err e) ts = ts
  add_decoded (ok t) ts = t ∷ ts

  decode_all : List Entry → List Task
  unfolding data_or_empty add_decoded
  decode_all [] = []
  decode_all (e ∷ es) =
      add_decoded (codec.unmarshal (data_or_empty (lookup "data" e.values))) (decode_all es)

  -- `entries[:limit]` if the limit is positive and there are more.
  abbrev limited : ℕ → List Entry → List Entry
  limited n es = if ltb 0 n && ltb n (length es) then take n es else es

  peeked : ℕ → Result (List Entry) → Result (List Task)
  unfolding decode_all
  peeked limit (err e) = err e
  peeked limit (ok es) = ok (decode_all (limited limit es))

  unfoldable pub peek : ℕ → W → Result (List Task) × W
  unfolding peeked
  peek limit w = let (es, w') = redis.xrange q.stream w in (peeked limit es, w')

  unfoldable pub depth : W → Result ℕ × W
  depth w = redis.xlen q.stream w

module _ {W : Type 0} (env : Env W) (redis : Redis W) (codec : Codec) (q : RedisQueue) where
  -- `Enqueue`
  unfoldable pub enqueue : Task → W → Option Error × Task × W
  unfolding stamped send
  enqueue t w = let (t1, w1) = stamped env t w in send redis codec q (codec.marshal t1) t1 w1

  -- `NewRedisQueue`
  unfoldable pub redis_queue : Queue W
  redis_queue = record {
    enqueue = enqueue;
    dequeue = dequeue redis codec q;
    ack = ack redis codec q;
    nack = nack redis codec q;
    peek = peek redis codec q;
    depth = depth redis codec q;
  }
