-- ===== src/Brain/Workflows/Dag/Finish.antt =====
-- A run over an acyclic graph comes to its end.
use bzy_personal.Prelude.{
  ℕ, zero, suc, ◌≤◌, ◌<◌, ◌≡◌, refl, false, String, List, [], ◌∷◌, Option, none, some, str_eq,
  arith, Bool-cases, inl, inr,
}
use bzy_personal.Prelude.Map.{Map, lookup}
use bzy_personal.Errors.{Result, ok, err}
use bzy_personal.Runtime.{Env, Json}
use bzy_personal.Brain.Workflows.{
  WorkflowRun, WorkflowDef, Node, NodeState, NodeHandler, Phase, looping, done, Exec,
}
use bzy_personal.Brain.Workflows.Dag.{
  leave, settle, handle, visit, pass, tick_phase, tick, Event, advance, cancelled_by_client,
  mark_cancelled, play, ticks, go_on,
}

-- Along the edges that a run follows (the first of `Next`, and `OnError` where there is one) the
-- rank falls. A graph has such ranks exactly if those edges make no cycle.
pub record IsAcyclic (def : WorkflowDef) (rank : String → ℕ) : Type 0 where
  pub next_falls :
      (current n : String) (node : Node) (ns : List String)
      → lookup current def.nodes ≡ some node
      → node.next ≡ n ∷ ns
      → rank n < rank current
  pub error_falls :
      (current : String) (node : Node)
      → lookup current def.nodes ≡ some node
      → str_eq node.on_error "" ≡ false
      → rank node.on_error < rank current

abbrev pub IsOver : Phase → Type 0
IsOver (looping c p) = ⊥
IsOver (done e) = Unit

module _ {W : Type 0} (env : Env W) (handlers : Map (NodeHandler W)) (def : WorkflowDef)
    (rank : String → ℕ) (acyclic : IsAcyclic def rank) where
  -- Nothing more to do, or a node of a rank below the bound.
  abbrev Below : ℕ → Phase → Type 0
  Below k (looping c p) = rank c < k
  Below k (done e) = Unit

  leave-Below :
      (next : List String) (k : ℕ) (payload : Json) (run : WorkflowRun) (w : W)
      → ((n : String) (ns : List String) → next ≡ n ∷ ns → rank n < k)
      → Below k (leave env next payload run w).phase
  unfolding leave
  leave-Below [] k payload run w h = tt
  leave-Below (n ∷ ns) k payload run w h = h n ns refl

  settle-Below :
      (node : Node) (current : String) (payload : Json) (ns : NodeState) (run : WorkflowRun)
      (r : Result Json) (w : W)
      → lookup current def.nodes ≡ some node
      → Below (rank current) (settle env node current payload ns run r w).phase
  unfolding settle
  settle-Below node current payload ns run (err e) w found =
      elim (Bool-cases (str_eq node.on_error "")) [
        | inl stop ↦ rw stop tt
        | inr more ↦ rw more (acyclic.error_falls current node found more)
      ]
  settle-Below node current payload ns run (ok output) w found =
      leave-Below node.next (rank current) output _ _
        (λ n rest e. acyclic.next_falls current n node rest found e)

  handle-Below :
      (h : Option (NodeHandler W)) (node : Node) (current : String) (payload : Json)
      (ns : NodeState) (run : WorkflowRun) (w : W)
      → lookup current def.nodes ≡ some node
      → Below (rank current) (handle env h node current payload ns run w).phase
  unfolding handle
  handle-Below none node current payload ns run w found = tt
  handle-Below (some h) node current payload ns run w found =
      let (r, w1) = h node payload run w in settle-Below node current payload ns run r w1 found

  visit-Below :
      (o : Option Node) (current : String) (payload : Json) (run : WorkflowRun) (w : W)
      → lookup current def.nodes ≡ o
      → Below (rank current) (visit env handlers o current payload run w).phase
  unfolding visit
  visit-Below none current payload run w found = tt
  visit-Below (some node) current payload run w found =
      handle-Below (lookup node.type handlers) node current payload _ _ _ found

  pass-Below :
      (current : String) (payload : Json) (run : WorkflowRun) (w : W)
      → Below (rank current) (pass env handlers def current payload run w).phase
  unfolding pass
  pass-Below current payload run w = elim (Bool-cases (str_eq current "")) [
    | inl e ↦ rw e tt
    | inr e ↦ rw e (visit-Below (lookup current def.nodes) current payload run w refl)
  ]

  Below-mono : (j k : ℕ) (ph : Phase) → j ≤ k → Below j ph → Below k ph
  Below-mono j k (looping c p) h b = omega arith
  Below-mono j k (done e) h b = tt

  tick_phase-Below :
      (k : ℕ) (ph : Phase) (x : Exec W)
      → x.phase ≡ ph
      → Below (suc k) ph
      → Below k (tick_phase env handlers def ph x).phase
  unfolding tick_phase
  tick_phase-Below k (done e) x same b = rw same tt
  tick_phase-Below k (looping c p) x same b =
      Below-mono (rank c) k _ (omega arith) (pass-Below c p x.run x.world)

  Below-zero : (ph : Phase) → Below 0 ph → IsOver ph
  Below-zero (looping c p) b = omega arith
  Below-zero (done e) b = tt

  play-Below :
      (es : List Event) (k : ℕ) (x : Exec W)
      → k ≤ ticks es
      → Below k x.phase
      → IsOver (play env handlers def x es).phase
  unfolding tick
  play-Below [] zero x h b = Below-zero x.phase b
  play-Below [] (suc k) x h b = absurd (omega arith)
  play-Below (cancelled_by_client ∷ es) k x h b = play-Below es k (mark_cancelled x) h b
  play-Below (advance ∷ es) (suc k) x h b =
      play-Below es k (tick env handlers def x) (omega arith) (tick_phase-Below k x.phase x refl b)
  play-Below (advance ∷ es) zero x h b =
      play-Below es zero (tick env handlers def x) (omega arith)
        (tick_phase-Below zero x.phase x refl (Below-mono 0 1 x.phase (omega arith) b))

-- On an acyclic graph the goroutine ends, whatever the handlers answer and whenever the run is
-- cancelled: any schedule with more passes than the rank of the node it stands at brings it there.
pub play-IsOver :
    {W : Type 0} (env : Env W) (handlers : Map (NodeHandler W)) (def : WorkflowDef)
    (rank : String → ℕ) (es : List Event) (current : String) (payload : Json) (run : WorkflowRun)
    (w : W)
    → IsAcyclic def rank
    → rank current < ticks es
    → IsOver (play env handlers def (go_on current payload run w) es).phase
play-IsOver env handlers def rank es current payload run w acyclic enough =
    play-Below env handlers def rank acyclic es (suc (rank current)) (go_on current payload run w)
      enough (omega arith)
