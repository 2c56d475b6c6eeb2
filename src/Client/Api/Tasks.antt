-- ===== src/Client/Api/Tasks.antt =====
-- pkg/client/tasks.go. The codecs of the bodies, `url.Values.Encode` and the timer are parameters.
use bzy_personal.Prelude.{
  ℕ, Bool, not, String, List, [], ◌∷◌, Option, none, some, ◌==◌, ltb, ◌||◌, str_eq, if◌then◌else◌,
  length,
}
use bzy_personal.Prelude.Map.{Map, insert}
use bzy_personal.Prelude.Texts.{◌<>◌}
use bzy_personal.Errors.{Error, Result, ok, err, decimal}
use bzy_personal.Runtime.{Json}
use bzy_personal.Client.Sse.{Reader, Answer, event, eof, failed, next, iter}
use bzy_personal.Client.Api.{
  Link, Reads, decode_data, on_decoded, call, wrapped, field, command, open_stream, poll,
}

abbrev pub priority_low : ℕ
priority_low = 1

abbrev pub priority_normal : ℕ
priority_normal = 5

abbrev pub priority_high : ℕ
priority_high = 9

-- `TaskStatus`
abbrev pub task_queued : String
task_queued = "queued"

abbrev pub task_processing : String
task_processing = "processing"

abbrev pub task_completed : String
task_completed = "completed"

abbrev pub task_failed : String
task_failed = "failed"

abbrev pub task_retrying : String
task_retrying = "retrying"

abbrev pub task_dead : String
task_dead = "dead"

abbrev pub task_cancelled : String
task_cancelled = "cancelled"

-- Times are nanoseconds; a pointer is an option.
pub record EnqueueRequest : Type 0 where
  pub kind : String
  pub payload : Json
  pub priority : ℕ
  pub max_attempts : ℕ
  pub timeout : ℕ
  pub run_at : Option ℕ

pub record EnqueueResponse : Type 0 where
  pub task_id : String

pub record Task : Type 0 where
  pub id : String
  pub kind : String
  pub payload : Json
  pub priority : ℕ
  pub status : String
  pub attempt : ℕ
  pub max_attempts : ℕ
  pub worker_id : String
  pub error : String
  pub result : Json
  pub queued_at : ℕ
  pub started_at : Option ℕ
  pub finished_at : Option ℕ

pub record ListTasksResponse : Type 0 where
  pub tasks : List Task
  pub next_page_token : String

pub record LogEntry : Type 0 where
  pub task_id : String
  pub worker_id : String
  pub level : String
  pub message : String
  pub timestamp : ℕ

abbrev pub no_task : Task
no_task = record {
  id = "";
  kind = "";
  payload = "";
  priority = 0;
  status = "";
  attempt = 0;
  max_attempts = 0;
  worker_id = "";
  error = "";
  result = "";
  queued_at = 0;
  started_at = none;
  finished_at = none;
}

abbrev pub no_entry : LogEntry
no_entry = record { task_id = ""; worker_id = ""; level = ""; message = ""; timestamp = 0 }

pub record Codec : Type 0 where
  pub marshal : EnqueueRequest → Result String
  pub read_enqueued : Reads EnqueueResponse
  pub read_task : Reads Task
  pub read_tasks : Reads ListTasksResponse
  pub read_entry : Reads LogEntry
  pub encode_query : Map String → String

-- `LogStream.Next`. `none` is `io.EOF`.
after_event : Codec → Answer → Option (Result LogEntry)
after_event codec eof = none
after_event codec (failed e) = some (err e)
after_event codec (event e) = some (decode_data codec.read_entry no_entry e)

unfoldable pub log_next : Codec → Reader → Option (Result LogEntry) × Reader
unfolding after_event
log_next codec r = let (a, r') = next r in (after_event codec a, r')

-- `LogStream.Each`
unfoldable pub log_each :
    {W : Type 0}
    → Codec
    → (W → Option Error)
    → (LogEntry → W → Option Error × W)
    → Reader
    → W
    → Option (Option Error × W)
log_each codec ended fn r w = iter ended (λ e v. on_decoded codec.read_entry no_entry fn e v) r w

abbrev pub tasks_path : String
tasks_path = "/api/v1/tasks/"

abbrev pub task_path : String → String
task_path id = "/api/v1/tasks/" <> id

abbrev pub logs_path : String → String
logs_path id = "/api/v1/tasks/" <> (id <> "/logs")

module _ {W : Type 0} (l : Link W) (codec : Codec) where
  -- `Enqueue`
  unfoldable pub enqueue : EnqueueRequest → W → Option (Result String × W)
  enqueue req w =
      field (λ (r : EnqueueResponse). r.task_id)
        (wrapped "enqueue: " (
          call l "POST" tasks_path (some (codec.marshal req)) codec.read_enqueued
            (record { task_id = "" }) w))

  apply_options : List (EnqueueRequest → EnqueueRequest) → EnqueueRequest → EnqueueRequest
  apply_options [] req = req
  apply_options (o ∷ opts) req = apply_options opts (o req)

  -- `EnqueueJSON`, for a payload as it is encoded.
  unfoldable pub enqueue_json :
      String → Result Json → List (EnqueueRequest → EnqueueRequest) → W → Option (Result String × W)
  unfolding enqueue apply_options
  enqueue_json kind (err e) opts w = some (err e, w)
  enqueue_json kind (ok raw) opts w =
      enqueue
        (apply_options opts (record {
          kind = kind;
          payload = raw;
          priority = 0;
          max_attempts = 0;
          timeout = 0;
          run_at = none;
        }))
        w

  -- `Get`
  unfoldable pub get : String → W → Option (Result Task × W)
  get id w = wrapped "task get: " (call l "GET" (task_path id) none codec.read_task no_task w)

  -- `Cancel`
  unfoldable pub cancel : String → W → Option (Option Error × W)
  cancel id w = command l "DELETE" (task_path id) w

  unfoldable pub with_status : String → Map String
  with_status status = if not (str_eq status "") then insert "status" status [] else []

  unfoldable pub with_limit : ℕ → Map String → Map String
  with_limit limit q = if ltb 0 limit then insert "limit" (decimal limit) q else q

  -- The path that `List` asks for. `limit` is not negative.
  unfoldable pub list_path : String → ℕ → String
  unfolding with_status with_limit
  list_path status limit =
      let q = with_limit limit (with_status status) in
      if ltb 0 (length q) then tasks_path <> ("?" <> codec.encode_query q) else tasks_path

  -- `List`
  unfoldable pub list : String → ℕ → W → Option (Result ListTasksResponse × W)
  unfolding list_path
  list status limit w =
      call l "GET" (list_path status limit) none codec.read_tasks
        (record { tasks = []; next_page_token = "" }) w

  -- `Logs`
  unfoldable pub logs : String → Bool → W → Result Reader × W
  logs id follow w =
      let q = insert "follow" "true" [] in
      let path = if follow then logs_path id <> ("?" <> codec.encode_query q) else logs_path id in
      open_stream l "task logs: " "GET" path none w

  unfoldable pub is_terminal : Task → Bool
  is_terminal task =
      str_eq task.status task_completed
      || str_eq task.status task_failed
      || str_eq task.status task_dead
      || str_eq task.status task_cancelled

  -- `Wait`: an interval of 0 is a second.
  unfoldable pub wait : (ℕ → W → Option Error × W) → ℕ → String → ℕ → W → Option (Result Task × W)
  unfolding get is_terminal
  wait pause fuel id interval w =
      let every = if interval == 0 then 1000000000 else interval in
      poll (λ v. get id v) (λ t. is_terminal t) (λ v. pause every v) fuel w
