-- ===== src/Client/Api/Workflows.antt =====
-- pkg/client/workflows.go. The codecs of the bodies and the timer are parameters.
use bzy_personal.Prelude.{ℕ, Bool, String, Option, none, some, ◌==◌, ◌||◌, str_eq, if◌then◌else◌}
use bzy_personal.Prelude.Texts.{◌<>◌}
use bzy_personal.Errors.{Error, text, Result, ok, err}
use bzy_personal.Runtime.{Json}
use bzy_personal.Client.Api.{Link, Reads, call, wrapped, poll}

-- `WorkflowStatus`
abbrev pub workflow_completed : String
workflow_completed = "completed"

abbrev pub workflow_failed : String
workflow_failed = "failed"

abbrev pub workflow_cancelled : String
workflow_cancelled = "cancelled"

pub record WorkflowDef : Type 0 where
  pub id : String
  pub name : String
  pub description : String
  pub version : ℕ
  pub definition : Json
  pub created_at : ℕ

-- A nil `json.RawMessage` is `none`.
pub record WorkflowRun : Type 0 where
  pub id : String
  pub def_id : String
  pub status : String
  pub input : Option Json
  pub output : Option Json
  pub error : String
  pub started_at : ℕ
  pub finished_at : Option ℕ

pub record CreateWorkflowRequest : Type 0 where
  pub name : String
  pub description : String
  pub definition : Json

pub record RunWorkflowRequest : Type 0 where
  pub input : Json

pub record Codec : Type 0 where
  pub marshal_create : CreateWorkflowRequest → Result String
  pub marshal_run : RunWorkflowRequest → Result String
  pub read_def : Reads WorkflowDef
  pub read_run : Reads WorkflowRun

abbrev pub no_def : WorkflowDef
no_def = record {
  id = "";
  name = "";
  description = "";
  version = 0;
  definition = "";
  created_at = 0;
}

abbrev pub no_run : WorkflowRun
no_run = record {
  id = "";
  def_id = "";
  status = "";
  input = none;
  output = none;
  error = "";
  started_at = 0;
  finished_at = none;
}

-- `OutputAs`
unfoldable pub output_as : {A : Type 0} → Reads A → WorkflowRun → A → Result (Unit {0}) × A
output_as reads r v = elim r.output [
  | none ↦ (err (text "workflow run has no output"), v)
  | some out ↦ reads out v
]

abbrev pub workflows_path : String
workflows_path = "/api/v1/workflows/"

abbrev pub workflow_run_path : String → String
workflow_run_path id = "/api/v1/workflows/" <> (id <> "/run")

abbrev pub run_path : String → String
run_path id = "/api/v1/workflows/runs/" <> id

module _ {W : Type 0} (l : Link W) (codec : Codec) where
  -- `Create`
  unfoldable pub create : CreateWorkflowRequest → W → Option (Result WorkflowDef × W)
  create req w =
      wrapped "workflow create: "
        (call l "POST" workflows_path (some (codec.marshal_create req)) codec.read_def no_def w)

  -- `Run`, for an input as it is encoded.
  unfoldable pub run : String → Result Json → W → Option (Result WorkflowRun × W)
  run id (err e) w = some (err e, w)
  run id (ok raw) w = wrapped "workflow run: " (
      call l "POST" (workflow_run_path id) (some (codec.marshal_run (record { input = raw })))
        codec.read_run no_run w)

  -- `GetRun`
  unfoldable pub get_run : String → W → Option (Result WorkflowRun × W)
  get_run id w = call l "GET" (run_path id) none codec.read_run no_run w

  unfoldable pub is_terminal : WorkflowRun → Bool
  is_terminal r =
      str_eq r.status workflow_completed
      || str_eq r.status workflow_failed
      || str_eq r.status workflow_cancelled

  -- `Wait`: an interval of 0 is two seconds.
  unfoldable pub wait :
      (ℕ → W → Option Error × W) → ℕ → String → ℕ → W → Option (Result WorkflowRun × W)
  unfolding get_run is_terminal
  wait pause fuel id interval w =
      let every = if interval == 0 then 2000000000 else interval in
      poll (λ v. get_run id v) (λ r. is_terminal r) (λ v. pause every v) fuel w
