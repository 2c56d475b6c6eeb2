-- ===== src/Brain/Workflows/Dag/Examples.antt =====
-- A workflow of two nodes.
use mathlib.Core.Bool.{false≢true}
use bzy_personal.Prelude.{
  ℕ, ◌≡◌, refl, sym, ap, ◌⊎◌, inl, inr, ◌∙◌, Bool-cases, eq_iff, String, List, [], ◌∷◌, some, none,
  str_eq, if◌then◌else◌, arith,
}
use bzy_personal.Prelude.Map.{Map, lookup, insert}
use bzy_personal.Errors.{ok}
use bzy_personal.Brain.Samples.{clock}
use bzy_personal.Brain.Workflows.{
  WorkflowStatus, WorkflowRun, WorkflowDef, Node, NodeHandler, new_engine, register_def, get_def,
  def_or_error, execute, execute_found,
}
use bzy_personal.Brain.Workflows.Dag.{tick, play, go_on, only_ticks, advance, cancelled_by_client}
use bzy_personal.Brain.Workflows.Dag.Finish.{IsAcyclic, IsOver, play-IsOver}
use bzy_personal.Brain.Workflows.Dag.Cancelling.{blur, restatus, IsBlind, play-only_ticks}
use bzy_personal.Brain.Workflows.Dag.Nodes.{AllAccounted, play-nodes}
use bzy_personal.Brain.Workflows.Dag.Api.{register_call, HasFailed, execute-fails}

abbrev node : String → String → List String → Node
node id type next = record {
  id = id;
  type = type;
  name = id;
  config = "";
  next = next;
  on_error = "";
  on_success = "";
}

abbrev two_nodes : WorkflowDef
two_nodes = record {
  id = "wf";
  name = "two nodes";
  description = "";
  version = 1;
  nodes = ("in", node "in" "input" ("out" ∷ [])) ∷ ("out", node "out" "output" []) ∷ [];
  entry_node = "in";
  input_schema = "";
  created_at = 0;
}

abbrev echo : NodeHandler ℕ
echo node payload run w = (ok payload, w)

abbrev echoes : Map (NodeHandler ℕ)
echoes = ("input", echo) ∷ []

abbrev fresh_run : WorkflowRun
fresh_run = record {
  id = "r";
  def_id = "wf";
  status = WorkflowStatus.running;
  input = "1";
  output = "";
  node_states = [];
  error = "";
  started_at = 0;
  finished_at = none;
}

abbrev rank : String → ℕ
rank s = if str_eq s "in" then 2 else if str_eq s "out" then 1 else 0

-- The nodes of the definition, with their ranks.
node_found :
    (current : String) (n : Node)
    → lookup current two_nodes.nodes ≡ some n
    → ((current ≡ "in") × (n ≡ node "in" "input" ("out" ∷ [])))
      ⊎ ((current ≡ "out") × (n ≡ node "out" "output" []))
unfolding lookup
node_found current n e = elim (Bool-cases (str_eq "in" current)) [
  | inl p ↦ inl (sym ((eq_iff "in" current).0 p), cc (rw p at e))
  | inr p ↦ elim (Bool-cases (str_eq "out" current)) [
    | inl q ↦ inr (sym ((eq_iff "out" current).0 q), cc (rw (p, q) at e))
    | inr q ↦ cc (rw (p, q) at e)
  ]
]

two_nodes-IsAcyclic : IsAcyclic two_nodes rank
two_nodes-IsAcyclic = record {
  next_falls = λ current n nd ns at e. elim (node_found current nd at) [
    | inl (c, same) ↦
        let edges : n ∷ ns ≡ "out" ∷ [] = sym e ∙ ap (λ x. x.next) same in
        let there : n ≡ "out" = cc edges in rw (c, there) (omega arith)
    | inr (c, same) ↦ cc (sym e ∙ ap (λ x. x.next) same)
  ];
  error_falls = λ current nd at e. elim (node_found current nd at) [
    | inl (c, same) ↦ absurd (false≢true (sym e ∙ ap (λ x. str_eq x.on_error "") same))
    | inr (c, same) ↦ absurd (false≢true (sym e ∙ ap (λ x. str_eq x.on_error "") same))
  ];
}

play-IsOver_example :
    IsOver
      (play clock echoes two_nodes
        (go_on "in" "1" fresh_run 0)
        (advance ∷ cancelled_by_client ∷ advance ∷ advance ∷ [])).phase
play-IsOver_example =
    play-IsOver clock echoes two_nodes rank (advance ∷ cancelled_by_client ∷ advance ∷ advance ∷ [])
      "in" "1" fresh_run 0 two_nodes-IsAcyclic (omega arith)

play-nodes_example :
    AllAccounted clock echoes two_nodes
      (play clock echoes two_nodes
        (go_on "in" "1" fresh_run 0)
        (advance ∷ advance ∷ [])).run.node_states
play-nodes_example =
    play-nodes clock echoes two_nodes (go_on "in" "1" fresh_run 0) (advance ∷ advance ∷ []) refl

echoes-IsBlind : (type : String) (h : NodeHandler ℕ) → lookup type echoes ≡ some h → IsBlind h
unfolding lookup
echoes-IsBlind type h e = elim (Bool-cases (str_eq "input" type)) [
  | inl p ↦ λ nd payload run s w.
      let same : echo ≡ h = cc (rw p at e) in
      sym (ap (λ g. g nd payload (restatus s run) w) same) ∙ ap (λ g. g nd payload run w) same
  | inr p ↦ cc (rw p at e)
]

play-only_ticks_example :
    blur (
      play clock echoes two_nodes (go_on "in" "1" fresh_run 0) (cancelled_by_client ∷ advance ∷ []))
    ≡ blur (
        play clock echoes two_nodes
          (go_on "in" "1" fresh_run 0)
          (only_ticks (cancelled_by_client ∷ advance ∷ [])))
play-only_ticks_example =
    play-only_ticks clock echoes two_nodes (go_on "in" "1" fresh_run 0)
      (cancelled_by_client ∷ advance ∷ []) echoes-IsBlind

execute-fails_example :
    HasFailed (
      tick clock [] two_nodes
        (go_on "in" "1" (record fresh_run { id = "fresh"; started_at = 1 }) 2))
unfolding register_def get_def def_or_error execute execute_found new_engine lookup insert
execute-fails_example =
    execute-fails clock (register_call two_nodes ∷ []) 0 1 "wf" "1" two_nodes
      (go_on "in" "1" (record fresh_run { id = "fresh"; started_at = 1 }) 2) refl (λ e. cc e) refl
