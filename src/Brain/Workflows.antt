-- ===== src/Brain/Workflows.antt =====
-- apps/bzy-brain/internal/workflows/workflow.go: workflow definitions, the engine, and the goroutine
-- that `Execute` starts, one pass of the loop of `executeDAG` at a time.
pub mod Dag
use bzy_personal.Prelude.{
  ℕ, zero, suc, Bool, true, false, String, List, [], ◌∷◌, Option, none, some, str_eq, if◌then◌else◌,
}
use bzy_personal.Prelude.Map.{Map, lookup, insert}
use bzy_personal.Errors.{Error, text, Result, ok, err, ◌<>◌}
use bzy_personal.Runtime.{Env, Json}

pub data WorkflowStatus : Type 0 where
  pending running completed failed cancelled : WorkflowStatus

-- The type of a node is an open string in Go: "agent", "tool", "condition", "transform", "wait",
-- "subflow", "input" and "output" are the named ones.
pub record Node : Type 0 where
  pub id : String
  pub type : String
  pub name : String
  pub config : Json
  pub next : List String
  pub on_error : String
  pub on_success : String

pub record WorkflowDef : Type 0 where
  pub id : String
  pub name : String
  pub description : String
  pub version : ℕ
  pub nodes : Map Node
  pub entry_node : String
  pub input_schema : Json
  pub created_at : ℕ

pub record NodeState : Type 0 where
  pub node_id : String
  pub status : WorkflowStatus
  pub input : Json
  pub output : Json
  pub error : String
  pub attempts : ℕ
  pub started_at : ℕ
  pub finished_at : Option ℕ

pub record WorkflowRun : Type 0 where
  pub id : String
  pub def_id : String
  pub status : WorkflowStatus
  pub input : Json
  pub output : Json
  pub node_states : Map NodeState
  pub error : String
  pub started_at : ℕ
  pub finished_at : Option ℕ

-- `NodeHandler.Handle`, a parameter. Go gives it pointers to the node and the run, which it could write to; here
-- it reads them only.
abbrev pub NodeHandler : Type 0 → Type 0
NodeHandler W = Node → Json → WorkflowRun → W → Result Json × W

-- Go's map of runs shares each run with its goroutine by pointer; here it holds the run as it was stored.
pub record Engine (W : Type 0) : Type 0 where
  pub defs : Map WorkflowDef
  pub runs : Map WorkflowRun
  pub handlers : Map (NodeHandler W)

unfoldable pub new_engine : {W : Type 0} → Engine W
new_engine = record { defs = []; runs = []; handlers = [] }

module _ {W : Type 0} (env : Env W) where
  unfoldable pub register_def : WorkflowDef → Engine W → W → Engine W × W
  register_def def e w =
      let (fresh, w1) = env.fresh w in
      let (id, w2) = if str_eq def.id "" then (fresh, w1) else (def.id, w) in
      let (at, w3) = env.now w2 in
      (record e { defs = insert id (record def { id = id; created_at = at }) e.defs }, w3)

def_or_error : String → Option WorkflowDef → Result WorkflowDef
def_or_error id none = err (text ("workflow def not found: " <> id))
def_or_error id (some d) = ok d

run_or_error : String → Option WorkflowRun → Result WorkflowRun
run_or_error id none = err (text ("run not found: " <> id))
run_or_error id (some r) = ok r

module _ {W : Type 0} where
  unfoldable pub get_def : String → Engine W → Result WorkflowDef
  unfolding def_or_error
  get_def id e = def_or_error id (lookup id e.defs)

  unfoldable pub get_run : String → Engine W → Result WorkflowRun
  unfolding run_or_error
  get_run id e = run_or_error id (lookup id e.runs)

  cancel_found : String → Result WorkflowRun → Engine W → Result (Unit {0}) × Engine W
  cancel_found id (err x) e = (err x, e)
  cancel_found id (ok r) e =
      (ok tt, record e { runs = insert id (record r { status = cancelled }) e.runs })

  unfoldable pub cancel : String → Engine W → Result (Unit {0}) × Engine W
  unfolding cancel_found get_run
  cancel id e = cancel_found id (get_run id e) e

-- What the goroutine of a run is about to do: the loop at a node with a payload, or nothing more.
pub data Phase : Type 0 where
  looping : String → Json → Phase
  done : Option Error → Phase

-- A goroutine, the run that it shares with `runs` of the engine, and the world.
pub record Exec (W : Type 0) : Type 0 where
  pub phase : Phase
  pub run : WorkflowRun
  pub world : W

module _ {W : Type 0} (env : Env W) where
  execute_found : Result WorkflowDef → String → Json → Engine W → W → Result (Exec W) × Engine W × W
  execute_found (err x) def_id input e w = (err x, e, w)
  execute_found (ok def) def_id input e w =
      let (id, w1) = env.fresh w in
      let (at, w2) = env.now w1 in
      let run : WorkflowRun = record {
        id = id;
        def_id = def_id;
        status = running;
        input = input;
        output = "";
        node_states = [];
        error = "";
        started_at = at;
        finished_at = none;
      } in
      (
        ok (record { phase = looping def.entry_node input; run = run; world = w2 }),
        record e { runs = insert id run e.runs },
        w2,
      )

  -- `Execute`: the new run is stored and returned, with the goroutine that it starts.
  unfoldable pub execute : String → Json → Engine W → W → Result (Exec W) × Engine W × W
  unfolding execute_found get_def
  execute def_id input e w = execute_found (get_def def_id e) def_id input e w
