-- ===== src/Brain/Planning/Titles.antt =====
-- The dependencies of a decomposed plan name titles, and `NextTask` reads identifiers.
use mathlib.Core.Path.{subst}
use bzy_personal.Prelude.{◌≡◌, inl, inr, refl, sym, String, List, [], ◌∷◌, ◌++◌, some, All, map}
use bzy_personal.Errors.{Result, ok, err}
use bzy_personal.Runtime.{Env}
use bzy_personal.Brain.Providers.{Message, ChatResponse, Provider}
use bzy_personal.Brain.Planning.{
  TaskStatus, Task, Plan, RawTask, make_tasks, build_plan, parse_answer, decompose_request,
  decompose, next_task,
}
use bzy_personal.Brain.Planning.Next.{IsDone, Chosen, next_task-Chosen}

-- The plan after any changes of the status of its tasks.
abbrev pub restatus : (Task → TaskStatus) → Plan → Plan
restatus f plan = record plan { tasks = map {A = Task} (λ t. record t { status = f t }) plan.tasks }

module _ {W : Type 0} (env : Env W) (IsTitle : String → Type 0) where
  -- No identifier of the list is a title, and all dependencies are.
  Fresh : List Task → Type 0
  Fresh ts = All (λ t. (IsTitle t.id → ⊥) × All IsTitle t.dependencies) ts

  make_tasks-Fresh :
      (plan_id : String) (raw : List RawTask) (w : W)
      → ((w' : W) → IsTitle (env.fresh w').0 → ⊥)
      → All (λ r. All IsTitle r.dependencies) raw
      → Fresh (make_tasks env plan_id raw w).0
  unfolding make_tasks Fresh
  make_tasks-Fresh plan_id [] w new titles = tt
  make_tasks-Fresh plan_id (t ∷ ts) w new titles =
      let (id, w1) = env.fresh w in
      let (at, w2) = env.now w1 in ((new w, titles.0), make_tasks-Fresh plan_id ts w2 new titles.1)

  Fresh-restatus :
      (f : Task → TaskStatus) (ts : List Task)
      → Fresh ts
      → Fresh (map {A = Task} (λ t. record t { status = f t }) ts)
  unfolding Fresh
  Fresh-restatus f [] h = tt
  Fresh-restatus f (t ∷ ts) h = (h.0, Fresh-restatus f ts h.1)

  not_done : (ts : List Task) (dep : String) → Fresh ts → IsTitle dep → IsDone ts dep → ⊥
  unfolding Fresh
  not_done [] dep h title done = done
  not_done (t ∷ ts) dep h title (inl e) = h.0.0 (subst IsTitle (sym e.0) title)
  not_done (t ∷ ts) dep h title (inr d) = not_done ts dep h.1 title d

  ready_needs_none :
      (ts : List Task) (deps : List String)
      → Fresh ts
      → All IsTitle deps
      → All (IsDone ts) deps
      → deps ≡ []
  ready_needs_none ts [] h titles done = refl
  ready_needs_none ts (d ∷ deps) h titles done = absurd (not_done ts d h titles.0 done.0)

  Fresh-middle :
      (before : List Task) (t : Task) (after : List Task)
      → Fresh (before ++ t ∷ after)
      → All IsTitle t.dependencies
  unfolding Fresh
  Fresh-middle [] t after h = h.0.1
  Fresh-middle (u ∷ before) t after h = Fresh-middle before t after h.1

  next-Fresh :
      (plan : Plan) (t : Task) → Fresh plan.tasks → next_task plan ≡ some t → t.dependencies ≡ []
  next-Fresh plan t h e = go (subst (Chosen plan.tasks plan.tasks) e (next_task-Chosen plan))
    where
      go : Chosen plan.tasks plan.tasks (some t) → t.dependencies ≡ []
      go (before, after, split, ready, _) =
          ready_needs_none plan.tasks t.dependencies h
            (Fresh-middle before t after (subst Fresh split h)) ready.1

  PlanFresh : Result Plan → Type 0
  PlanFresh (err x) = Unit
  PlanFresh (ok plan) = Fresh plan.tasks

  AsksTitles : Result (List RawTask) → Type 0
  AsksTitles raw = (ts : List RawTask) → raw ≡ ok ts → All (λ r. All IsTitle r.dependencies) ts

  build_plan-Fresh :
      (goal : String) (raw : Result (List RawTask)) (w : W)
      → ((v : W) → IsTitle (env.fresh v).0 → ⊥)
      → AsksTitles raw
      → PlanFresh (build_plan env goal raw w).0
  unfolding build_plan PlanFresh AsksTitles
  build_plan-Fresh goal (err x) w new titles = tt
  build_plan-Fresh goal (ok ts) w new titles =
      let (id, w1) = env.fresh w in
      let (at, w2) = env.now w1 in make_tasks-Fresh id ts w2 new (titles ts refl)

  parse_answer-Fresh :
      (parse : String → Result (List RawTask)) (goal : String) (c : Result ChatResponse × W)
      → ((v : W) → IsTitle (env.fresh v).0 → ⊥)
      → ((resp : ChatResponse) → c.0 ≡ ok resp → AsksTitles (parse resp.message.content))
      → PlanFresh (parse_answer env parse goal c).0
  unfolding parse_answer PlanFresh
  parse_answer-Fresh parse goal (err x, w) new titles = tt
  parse_answer-Fresh parse goal (ok resp, w) new titles =
      build_plan-Fresh goal (parse resp.message.content) w new (titles resp refl)

-- No task with a dependency is ever next in a decomposed plan, whatever statuses its tasks are
-- given: if the dependencies in the decoded answer of the provider are titles, as the prompt asks,
-- and no fresh identifier is a title, then `NextTask` returns tasks without dependencies only.
pub decompose_blocks :
    {W : Type 0} (env : Env W) (IsTitle : String → Type 0) (p : Provider W)
    (parse : String → Result (List RawTask)) (goal : String) (context : List Message) (w : W)
    (plan : Plan) (f : Task → TaskStatus) (t : Task)
    → ((v : W) → IsTitle (env.fresh v).0 → ⊥)
    → ((resp : ChatResponse) (ts : List RawTask)
        → (p.chat (decompose_request goal context) w).0 ≡ ok resp
        → parse resp.message.content ≡ ok ts
        → All (λ r. All IsTitle r.dependencies) ts)
    → (decompose env p parse goal context w).0 ≡ ok plan
    → next_task (restatus f plan) ≡ some t
    → t.dependencies ≡ []
unfolding decompose PlanFresh AsksTitles
decompose_blocks env IsTitle p parse goal context w plan f t new titles made next =
    let fresh = subst (PlanFresh env IsTitle) made (
      parse_answer-Fresh env IsTitle parse goal (p.chat (decompose_request goal context) w) new
        (λ resp e ts d. titles resp ts e d)) in
    next-Fresh env IsTitle (restatus f plan) t (Fresh-restatus env IsTitle f plan.tasks fresh) next
