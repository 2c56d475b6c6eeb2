-- ===== src/Brain/Workflows/Dag/Nodes.antt =====
-- What a run records of its nodes.
use mathlib.Core.Path.{subst}
use bzy_personal.Prelude.{
  ◌≡◌, refl, sym, ap, ◌∙◌, false, String, List, [], ◌∷◌, Option, none, some, str_eq, if◌then◌else◌,
  Bool-cases, inl, inr, ◌⊎◌, eq_iff,
}
use bzy_personal.Prelude.Map.{Map, lookup, insert, lookup-insert}
use bzy_personal.Errors.{Error, error_message, Result, ok, err}
use bzy_personal.Runtime.{Env, Json}
use bzy_personal.Brain.Workflows.{
  WorkflowStatus, WorkflowRun, WorkflowDef, Node, NodeState, NodeHandler, Phase, looping, done,
  Exec,
}
use bzy_personal.Brain.Workflows.Dag.{
  leave, settle, handle, visit, pass, tick_phase, tick, Event, advance, cancelled_by_client,
  mark_cancelled, play, complete, fail,
}

module _ {W : Type 0} (env : Env W) (handlers : Map (NodeHandler W)) (def : WorkflowDef) where
  -- The handler of the node's type has answered this to the input.
  abbrev pub HasAnswered : Node → Json → Result Json → Type 0
  HasAnswered node payload r =
      (f : NodeHandler W) × (run : WorkflowRun) × (w : W) × (lookup node.type handlers ≡ some f)
      × ((f node payload run w).0 ≡ r)

  -- The state is of a node of the definition. It is completed, and has the output that the handler
  -- has given to its input; or it is failed, and has the error of the handler; or it is running and
  -- the type of the node has no handler.
  abbrev pub IsAccounted : String → NodeState → Type 0
  IsAccounted k ns =
      (node : Node) × (lookup k def.nodes ≡ some node)
      × (((ns.status ≡ WorkflowStatus.completed) × HasAnswered node ns.input (ok ns.output))
          ⊎ (((ns.status ≡ WorkflowStatus.failed)
                × ((e : Error) × (ns.error ≡ error_message e) × HasAnswered node ns.input (err e)))
              ⊎ ((ns.status ≡ WorkflowStatus.running) × (lookup node.type handlers ≡ none))))

  abbrev pub AllAccounted : Map NodeState → Type 0
  AllAccounted states = (k : String) (ns : NodeState) → lookup k states ≡ some ns → IsAccounted k ns

  -- The same of all nodes but one.
  abbrev Others : String → Map NodeState → Type 0
  Others current states =
      (k : String) (ns : NodeState)
      → str_eq current k ≡ false
      → lookup k states ≡ some ns
      → IsAccounted k ns

  insert-Others :
      (current : String) (ns : NodeState) (states : Map NodeState)
      → AllAccounted states
      → Others current (insert current ns states)
  insert-Others current ns states h k ns' p e =
      let q : (if str_eq current k then some ns else lookup k states) ≡ some ns' =
        sym (lookup-insert current k ns states) ∙ e in
      h k ns' (rw p at q)

  insert-AllAccounted :
      (current : String) (ns : NodeState) (states : Map NodeState)
      → Others current states
      → IsAccounted current ns
      → AllAccounted (insert current ns states)
  insert-AllAccounted current ns states h new k ns' e =
      let q : (if str_eq current k then some ns else lookup k states) ≡ some ns' =
        sym (lookup-insert current k ns states) ∙ e in
      elim (Bool-cases (str_eq current k)) [
        | inl p ↦
            let s : some ns ≡ some ns' = rw p at q in
            let t : ns ≡ ns' = cc s in
            subst (λ z. IsAccounted z ns') ((eq_iff current k).0 p)
              (subst (IsAccounted current) t new)
        | inr p ↦ h k ns' p (rw p at q)
      ]

  leave-AllAccounted :
      (next : List String) (payload : Json) (run : WorkflowRun) (w : W)
      → AllAccounted run.node_states
      → AllAccounted (leave env next payload run w).run.node_states
  unfolding leave complete
  leave-AllAccounted [] payload run w h = h
  leave-AllAccounted (n ∷ ns) payload run w h = h

  settle-AllAccounted :
      (node : Node) (current : String) (payload : Json) (ns : NodeState) (run : WorkflowRun)
      (r : Result Json) (w : W)
      → lookup current def.nodes ≡ some node
      → HasAnswered node ns.input r
      → Others current run.node_states
      → AllAccounted (settle env node current payload ns run r w).run.node_states
  unfolding settle
  settle-AllAccounted node current payload ns run (err e) w found said h =
      let kept =
        insert-AllAccounted current _ run.node_states h
          (node, found, inr (inl (refl, (e, refl, said)))) in
      elim (Bool-cases (str_eq node.on_error "")) [
        | inl stop ↦ rw stop kept
        | inr more ↦ rw more kept
      ]
  settle-AllAccounted node current payload ns run (ok output) w found said h =
      leave-AllAccounted node.next output _ _
        (insert-AllAccounted current _ run.node_states h (node, found, inl (refl, said)))

  handle-AllAccounted :
      (o : Option (NodeHandler W)) (node : Node) (current : String) (payload : Json)
      (ns : NodeState) (run : WorkflowRun) (w : W)
      → lookup current def.nodes ≡ some node
      → lookup node.type handlers ≡ o
      → ns.status ≡ WorkflowStatus.running
      → ns.input ≡ payload
      → AllAccounted run.node_states
      → AllAccounted
          (handle env o node current payload ns
            (record run { node_states = insert current ns run.node_states })
            w).run.node_states
  unfolding handle fail
  handle-AllAccounted none node current payload ns run w found missing busy given h =
      insert-AllAccounted current ns run.node_states (λ k s _ e. h k s e)
        (node, found, inr (inr (busy, missing)))
  handle-AllAccounted (some f) node current payload ns run w found handled busy given h =
      let run1 = record run { node_states = insert current ns run.node_states } in
      let (r, w1) = f node payload run1 w in
      settle-AllAccounted node current payload ns run1 r w1 found
        (f, run1, w, handled, ap (λ x. (f node x run1 w).0) given)
        (insert-Others current ns run.node_states h)

  visit-AllAccounted :
      (o : Option Node) (current : String) (payload : Json) (run : WorkflowRun) (w : W)
      → lookup current def.nodes ≡ o
      → AllAccounted run.node_states
      → AllAccounted (visit env handlers o current payload run w).run.node_states
  unfolding visit fail
  visit-AllAccounted none current payload run w found h = h
  visit-AllAccounted (some node) current payload run w found h =
      handle-AllAccounted (lookup node.type handlers) node current payload _ run _ found refl refl
        refl h

  tick_phase-AllAccounted :
      (ph : Phase) (x : Exec W)
      → AllAccounted x.run.node_states
      → AllAccounted (tick_phase env handlers def ph x).run.node_states
  unfolding tick_phase pass complete
  tick_phase-AllAccounted (done e) x h = h
  tick_phase-AllAccounted (looping c p) x h = elim (Bool-cases (str_eq c "")) [
    | inl e ↦ rw e h
    | inr e ↦ rw e (visit-AllAccounted (lookup c def.nodes) c p x.run x.world refl h)
  ]

  play-AllAccounted :
      (es : List Event) (x : Exec W)
      → AllAccounted x.run.node_states
      → AllAccounted (play env handlers def x es).run.node_states
  unfolding tick
  play-AllAccounted [] x h = h
  play-AllAccounted (advance ∷ es) x h =
      play-AllAccounted es (tick env handlers def x) (tick_phase-AllAccounted x.phase x h)
  play-AllAccounted (cancelled_by_client ∷ es) x h = play-AllAccounted es (mark_cancelled x) h

-- After any schedule of passes and cancels, from a run that has visited nothing, each recorded node
-- state is of a node of the definition: it is completed, and its output is what the handler of the
-- node's type has answered to its input, or failed, and its error is the one the handler has
-- answered to its input, or it is still running, and the type of the node has no handler.
pub play-nodes :
    {W : Type 0} (env : Env W) (handlers : Map (NodeHandler W)) (def : WorkflowDef) (x : Exec W)
    (es : List Event)
    → x.run.node_states ≡ []
    → AllAccounted env handlers def (play env handlers def x es).run.node_states
unfolding lookup
play-nodes env handlers def x es empty =
    play-AllAccounted env handlers def es x (λ k ns e. cc (sym e ∙ ap (lookup k) empty))
