-- ===== src/Brain/Workflows/Dag.antt =====
-- `executeDAG` and the goroutine around it, of apps/bzy-brain/internal/workflows/workflow.go. One
-- tick is one pass of the loop; a cancel may come between two of them.
pub mod Finish
pub mod Cancelling
pub mod Nodes
pub mod Api
mod Examples
use bzy_personal.Prelude.{
  ℕ, zero, suc, Bool, true, false, String, List, [], ◌∷◌, Option, none, some, str_eq, if◌then◌else◌,
}
use bzy_personal.Prelude.Map.{Map, lookup, insert}
use bzy_personal.Errors.{Error, text, Result, ok, err, error_message, ◌<>◌}
use bzy_personal.Runtime.{Env, Json}
use bzy_personal.Brain.Workflows.{
  WorkflowStatus, WorkflowRun, WorkflowDef, Node, NodeState, NodeHandler, Phase, looping, done,
  Exec,
}

module _ {W : Type 0} where
  -- `return err`, and what the goroutine does with it.
  unfoldable pub fail : Error → WorkflowRun → W → Exec W
  fail e run w = record {
    phase = done (some e);
    run = record run { status = WorkflowStatus.failed; error = error_message e };
    world = w;
  }

  abbrev pub go_on : String → Json → WorkflowRun → W → Exec W
  go_on current payload run w = record { phase = looping current payload; run = run; world = w }

module _ {W : Type 0} (env : Env W) where
  -- After the loop.
  unfoldable pub complete : Json → WorkflowRun → W → Exec W
  complete payload run w =
      let (now, w1) = env.now w in
      record {
        phase = done none;
        run = record run {
          status = WorkflowStatus.completed;
          output = payload;
          finished_at = some now;
        };
        world = w1;
      }

  leave : List String → Json → WorkflowRun → W → Exec W
  unfolding complete
  leave [] payload run w = complete payload run w
  leave (n ∷ _) payload run w = go_on n payload run w

  -- The rest of a pass, after the handler. `ns` is the state that the pass has stored.
  settle : Node → String → Json → NodeState → WorkflowRun → Result Json → W → Exec W
  unfolding leave fail
  settle node current payload ns run (err e) w =
      let (now, w1) = env.now w in
      let ns1 = record ns {
        status = WorkflowStatus.failed;
        error = error_message e;
        finished_at = some now;
      } in
      let run1 = record run { node_states = insert current ns1 run.node_states } in
      if str_eq node.on_error "" then fail e run1 w1 else go_on node.on_error payload run1 w1
  settle node current payload ns run (ok output) w =
      let (now, w1) = env.now w in
      let ns1 = record ns {
        status = WorkflowStatus.completed;
        output = output;
        finished_at = some now;
      } in
      leave node.next output (record run { node_states = insert current ns1 run.node_states }) w1

  handle : Option (NodeHandler W) → Node → String → Json → NodeState → WorkflowRun → W → Exec W
  unfolding settle
  handle none node current payload ns run w =
      fail (text ("no handler for node type: " <> node.type)) run w
  handle (some h) node current payload ns run w =
      let (r, w1) = h node payload run w in settle node current payload ns run r w1

  visit : Map (NodeHandler W) → Option Node → String → Json → WorkflowRun → W → Exec W
  unfolding handle
  visit handlers none current payload run w = fail (text ("node not found: " <> current)) run w
  visit handlers (some node) current payload run w =
      let (at, w1) = env.now w in
      let ns : NodeState = record {
        node_id = current;
        status = WorkflowStatus.running;
        input = payload;
        output = "";
        error = "";
        attempts = 0;
        started_at = at;
        finished_at = none;
      } in
      handle (lookup node.type handlers) node current payload ns
        (record run { node_states = insert current ns run.node_states }) w1

  -- The test of the loop, and its body.
  pass : Map (NodeHandler W) → WorkflowDef → String → Json → WorkflowRun → W → Exec W
  unfolding visit complete
  pass handlers def current payload run w =
      if str_eq current ""
      then complete payload run w
      else visit handlers (lookup current def.nodes) current payload run w

  tick_phase : Map (NodeHandler W) → WorkflowDef → Phase → Exec W → Exec W
  unfolding pass
  tick_phase handlers def (done e) x = x
  tick_phase handlers def (looping current payload) x =
      pass handlers def current payload x.run x.world

  unfoldable pub tick : Map (NodeHandler W) → WorkflowDef → Exec W → Exec W
  unfolding tick_phase
  tick handlers def x = tick_phase handlers def x.phase x

-- What happens to a run: its goroutine makes a pass, or a client cancels it.
pub data Event : Type 0 where
  advance cancelled_by_client : Event

abbrev pub mark_cancelled : {W : Type 0} → Exec W → Exec W
mark_cancelled x = record x { run = record x.run { status = WorkflowStatus.cancelled } }

module _ {W : Type 0} (env : Env W) (handlers : Map (NodeHandler W)) (def : WorkflowDef) where
  abbrev pub step : Exec W → Event → Exec W
  step x advance = tick env handlers def x
  step x cancelled_by_client = mark_cancelled x

  abbrev pub play : Exec W → List Event → Exec W
  play x [] = x
  play x (e ∷ es) = play (step x e) es

abbrev pub ticks : List Event → ℕ
ticks [] = 0
ticks (advance ∷ es) = suc (ticks es)
ticks (cancelled_by_client ∷ es) = ticks es

abbrev pub only_ticks : List Event → List Event
only_ticks [] = []
only_ticks (advance ∷ es) = advance ∷ only_ticks es
only_ticks (cancelled_by_client ∷ es) = only_ticks es
