-- ===== src/Brain/Workflows/Dag/Cancelling.antt =====
-- `Cancel` against the goroutine of a run.
use bzy_personal.Prelude.{
  ◌≡◌, refl, sym, ap, ◌∙◌, String, List, [], ◌∷◌, Option, none, some, str_eq, Bool-cases, inl, inr,
}
use bzy_personal.Prelude.Map.{Map, lookup}
use bzy_personal.Errors.{Result, ok, err}
use bzy_personal.Runtime.{Env, Json}
use bzy_personal.Brain.Workflows.{
  WorkflowStatus, WorkflowRun, WorkflowDef, Node, NodeState, NodeHandler, Phase, looping, done,
  Exec,
}
use bzy_personal.Brain.Workflows.Dag.{
  leave, settle, handle, visit, pass, tick_phase, tick, Event, advance, cancelled_by_client,
  mark_cancelled, play, only_ticks,
}

-- The run with another status.
abbrev pub restatus : WorkflowStatus → WorkflowRun → WorkflowRun
restatus s run = record run { status = s }

-- All of the goroutine but the status of its run.
abbrev pub blur : {W : Type 0} → Exec W → Exec W
blur x = record x { run = restatus WorkflowStatus.pending x.run }

-- The handler does the same whatever the status of the run is.
abbrev pub IsBlind : {W : Type 0} → NodeHandler W → Type 0
IsBlind {W} h =
    (node : Node) (payload : Json) (run : WorkflowRun) (s : WorkflowStatus) (w : W)
    → h node payload (restatus s run) w ≡ h node payload run w

module _ {W : Type 0} (env : Env W) (s : WorkflowStatus) where
  leave-blur :
      (next : List String) (payload : Json) (run : WorkflowRun) (w : W)
      → blur (leave env next payload (restatus s run) w) ≡ blur (leave env next payload run w)
  unfolding leave
  leave-blur [] payload run w = refl
  leave-blur (n ∷ ns) payload run w = refl

  settle-blur :
      (node : Node) (current : String) (payload : Json) (ns : NodeState) (run : WorkflowRun)
      (r : Result Json) (w : W)
      → blur (settle env node current payload ns (restatus s run) r w)
        ≡ blur (settle env node current payload ns run r w)
  unfolding settle
  settle-blur node current payload ns run (err e) w = elim (Bool-cases (str_eq node.on_error "")) [
    | inl h ↦ rw h
    | inr h ↦ rw h
  ]
  settle-blur node current payload ns run (ok output) w = leave-blur node.next output _ _

  handle-blur :
      (h : Option (NodeHandler W)) (node : Node) (current : String) (payload : Json)
      (ns : NodeState) (run : WorkflowRun) (w : W)
      → ((f : NodeHandler W) → h ≡ some f → IsBlind f)
      → blur (handle env h node current payload ns (restatus s run) w)
        ≡ blur (handle env h node current payload ns run w)
  unfolding handle
  handle-blur none node current payload ns run w blind = refl
  handle-blur (some h) node current payload ns run w blind =
      rw (blind h refl node payload run s w)
        (settle-blur node current payload ns run (h node payload run w).0 (h node payload run w).1)

  module _ (handlers : Map (NodeHandler W)) (def : WorkflowDef)
      (blind : (type : String) (h : NodeHandler W)
        → lookup type handlers ≡ some h
        → IsBlind h) where
    visit-blur :
        (o : Option Node) (current : String) (payload : Json) (run : WorkflowRun) (w : W)
        → blur (visit env handlers o current payload (restatus s run) w)
          ≡ blur (visit env handlers o current payload run w)
    unfolding visit
    visit-blur none current payload run w = refl
    visit-blur (some node) current payload run w =
        handle-blur (lookup node.type handlers) node current payload _ _ _ (blind node.type)

    pass-blur :
        (current : String) (payload : Json) (run : WorkflowRun) (w : W)
        → blur (pass env handlers def current payload (restatus s run) w)
          ≡ blur (pass env handlers def current payload run w)
    unfolding pass
    pass-blur current payload run w = elim (Bool-cases (str_eq current "")) [
      | inl e ↦ rw e
      | inr e ↦ rw e (visit-blur (lookup current def.nodes) current payload run w)
    ]

    tick_phase-blur :
        (ph : Phase) (x : Exec W)
        → blur (tick_phase env handlers def ph (record x { run = restatus s x.run }))
          ≡ blur (tick_phase env handlers def ph x)
    unfolding tick_phase
    tick_phase-blur (done e) x = refl
    tick_phase-blur (looping c p) x = pass-blur c p x.run x.world

module _ {W : Type 0} (env : Env W) (handlers : Map (NodeHandler W)) (def : WorkflowDef)
    (blind : (type : String) (h : NodeHandler W) → lookup type handlers ≡ some h → IsBlind h) where
  tick-blur :
      (x y : Exec W)
      → blur x ≡ blur y
      → blur (tick env handlers def x) ≡ blur (tick env handlers def y)
  unfolding tick
  tick-blur x y e =
      sym (tick_phase-blur env WorkflowStatus.pending handlers def blind x.phase x)
      ∙ ap (λ z. blur (tick_phase env handlers def z.phase z)) e
      ∙ tick_phase-blur env WorkflowStatus.pending handlers def blind y.phase y

  play-blur :
      (es : List Event) (x y : Exec W)
      → blur x ≡ blur y
      → blur (play env handlers def x es) ≡ blur (play env handlers def y (only_ticks es))
  play-blur [] x y e = e
  play-blur (advance ∷ es) x y e =
      play-blur es (tick env handlers def x) (tick env handlers def y) (tick-blur x y e)
  play-blur (cancelled_by_client ∷ es) x y e = play-blur es (mark_cancelled x) y e

-- `Cancel` stops nothing: if no registered handler looks at the status of the run, then a schedule
-- with cancels leaves the same phase, the same world and the same run as the schedule without
-- them, but for the status of the run.
pub play-only_ticks :
    {W : Type 0} (env : Env W) (handlers : Map (NodeHandler W)) (def : WorkflowDef) (x : Exec W)
    (es : List Event)
    → ((type : String) (h : NodeHandler W) → lookup type handlers ≡ some h → IsBlind h)
    → blur (play env handlers def x es) ≡ blur (play env handlers def x (only_ticks es))
play-only_ticks env handlers def x es blind = play-blur env handlers def blind es x x refl
