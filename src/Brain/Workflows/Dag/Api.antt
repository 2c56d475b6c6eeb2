-- ===== src/Brain/Workflows/Dag/Api.antt =====
-- The engine as its clients can reach it.
use bzy_personal.Prelude.{
  ◌≡◌, ◌≢◌, refl, sym, ap, ◌∙◌, String, List, [], ◌∷◌, Option, none, some, str_eq_ne,
}
use bzy_personal.Prelude.Map.{Map, lookup}
use bzy_personal.Errors.{Error, Result, ok, err}
use bzy_personal.Runtime.{Env, Json}
use bzy_personal.Brain.Workflows.{
  WorkflowStatus, WorkflowRun, WorkflowDef, Node, NodeHandler, Phase, looping, done, Exec, Engine,
  new_engine, register_def, get_def, execute, execute_found, cancel, cancel_found, get_run,
}
use bzy_personal.Brain.Workflows.Dag.{visit, pass, tick}

-- The calls of the `Engine` interface that change it.
pub data Call : Type 0 where
  register_call : WorkflowDef → Call
  execute_call : String → Json → Call
  cancel_call : String → Call

module _ {W : Type 0} (env : Env W) where
  abbrev pub apply : Engine W × W → Call → Engine W × W
  apply (e, w) (register_call def) = register_def env def e w
  apply (e, w) (execute_call id input) = let (r, e', w') = execute env id input e w in (e', w')
  apply (e, w) (cancel_call id) = ((cancel id e).1, w)

  abbrev pub serve : Engine W × W → List Call → Engine W × W
  serve s [] = s
  serve s (c ∷ cs) = serve (apply s c) cs

  handlers-execute_found :
      (r : Result WorkflowDef) (id : String) (input : Json) (e : Engine W) (w : W)
      → (execute_found env r id input e w).1.handlers ≡ e.handlers
  unfolding execute_found
  handlers-execute_found (err x) id input e w = refl
  handlers-execute_found (ok d) id input e w = refl

  handlers-cancel_found :
      (id : String) (r : Result WorkflowRun) (e : Engine W)
      → (cancel_found id r e).1.handlers ≡ e.handlers
  unfolding cancel_found
  handlers-cancel_found id (err x) e = refl
  handlers-cancel_found id (ok r) e = refl

  handlers-apply : (e : Engine W) (w : W) (c : Call) → (apply (e, w) c).0.handlers ≡ e.handlers
  unfolding register_def execute cancel
  handlers-apply e w (register_call def) = refl
  handlers-apply e w (execute_call id input) = handlers-execute_found (get_def id e) id input e w
  handlers-apply e w (cancel_call id) = handlers-cancel_found id (get_run id e) e

  handlers-serve :
      (e : Engine W) (w : W) (cs : List Call) → (serve (e, w) cs).0.handlers ≡ e.handlers
  handlers-serve e w [] = refl
  handlers-serve e w (c ∷ cs) =
      handlers-serve (apply (e, w) c).0 (apply (e, w) c).1 cs ∙ handlers-apply e w c

-- The goroutine has failed, and its run says so.
abbrev pub HasFailed : {W : Type 0} → Exec W → Type 0
HasFailed x = ((e : Error) × (x.phase ≡ done (some e))) × (x.run.status ≡ WorkflowStatus.failed)

phase_of : {W : Type 0} → Result (Exec W) → Phase
phase_of (ok x) = x.phase
phase_of (err e) = done none

module _ {W : Type 0} (env : Env W) where
  visit-HasFailed :
      (o : Option Node) (current : String) (payload : Json) (run : WorkflowRun) (w : W)
      → HasFailed (visit env [] o current payload run w)
  unfolding visit lookup
  visit-HasFailed none current payload run w = ((_, refl), refl)
  visit-HasFailed (some node) current payload run w = ((_, refl), refl)

  first_pass-HasFailed :
      (def : WorkflowDef) (x : Exec W) (input : Json)
      → x.phase ≡ looping def.entry_node input
      → def.entry_node ≢ ""
      → HasFailed (tick env [] def x)
  unfolding tick pass
  first_pass-HasFailed def x input at entry =
      rw (at, tick)
        (rw (str_eq_ne def.entry_node "" entry)
          (visit-HasFailed (lookup def.entry_node def.nodes) def.entry_node input x.run x.world))

  execute-HasFailed :
      (handlers : Map (NodeHandler W)) (r : Result WorkflowDef) (def : WorkflowDef) (id : String)
      (input : Json) (e : Engine W) (w : W) (x : Exec W)
      → handlers ≡ []
      → r ≡ ok def
      → def.entry_node ≢ ""
      → (execute_found env r id input e w).0 ≡ ok x
      → HasFailed (tick env handlers def x)
  unfolding execute_found phase_of
  execute-HasFailed handlers (err y) def id input e w x empty found entry started = cc
  execute-HasFailed handlers (ok d) def id input e w x empty found entry started =
      let same : d ≡ def = cc found in
      let at : x.phase ≡ looping def.entry_node input =
        sym (ap phase_of started) ∙ ap (λ y. looping y.entry_node input) same in
      rw empty (first_pass-HasFailed def x input at entry)

-- In an engine that is reached from `NewEngine` by calls of its interface, every run of a workflow
-- with an entry node fails in its first pass: no call registers a handler of a node type.
pub execute-fails :
    {W : Type 0} (env : Env W) (cs : List Call) (w0 w : W) (id : String) (input : Json)
    (def : WorkflowDef) (x : Exec W)
    → let e = (serve env (new_engine, w0) cs).0 in
      get_def id e ≡ ok def
      → def.entry_node ≢ ""
      → (execute env id input e w).0 ≡ ok x
      → HasFailed (tick env e.handlers def x)
unfolding new_engine execute
execute-fails env cs w0 w id input def x found entry started =
    let e = (serve env (new_engine, w0) cs).0 in
    execute-HasFailed env e.handlers (get_def id e) def id input e w x
      (handlers-serve env new_engine w0 cs) found entry started
