-- ===== src/Brain/Planning/Examples.antt =====
-- Plans at concrete answers of a provider.
use mathlib.Core.Bool.{false≢true}
use bzy_personal.Prelude.{
  ◌≡◌, true, refl, String, List, [], ◌∷◌, some, none, All, str_eq, if◌then◌else◌, ap, ◌∙◌,
}
use bzy_personal.Prelude.Map.{lookup, insert}
use mathlib.Core.Path.{subst}
use bzy_personal.Errors.{Result, ok, err, text}
use bzy_personal.Brain.Samples.{clock, greeter}
use bzy_personal.Brain.Providers.{ChatResponse}
use bzy_personal.Brain.Planning.{
  TaskStatus, pending, completed, Task, Plan, RawTask, decompose_request, decompose, parse_answer,
  build_plan, make_tasks, next_task,
}
use bzy_personal.Brain.Planning.Next.{Chosen, next_task-Chosen}
use bzy_personal.Brain.Planning.Titles.{decompose_blocks}

abbrev task : String → List String → TaskStatus → Task
task id deps s = record {
  id = id;
  plan_id = "p";
  parent_id = "";
  title = id;
  description = "";
  type = "tool";
  tool_id = "";
  parameters = "";
  dependencies = deps;
  status = s;
  result = "";
  error = "";
  order = 0;
  created_at = 0;
  completed_at = none;
}

abbrev chain : Plan
chain = record {
  id = "p";
  goal = "trip";
  tasks = task "a" [] completed ∷ task "c" ("b" ∷ []) pending ∷ task "b" ("a" ∷ []) pending ∷ [];
  status = pending;
  created_at = 0;
  completed_at = none;
}

next_task-Chosen_example : Chosen chain.tasks chain.tasks (next_task chain)
next_task-Chosen_example = next_task-Chosen chain

-- The task whose dependency is done comes before the task whose dependency is not.
next_task_of_chain : next_task chain ≡ some (task "b" ("a" ∷ []) pending)
unfolding next_task lookup insert
next_task_of_chain = refl

abbrev raw : String → List String → RawTask
raw title deps = record {
  title = title;
  description = "";
  type = "tool";
  tool_id = "";
  dependencies = deps;
  order = 0;
}

abbrev answer : List RawTask
answer = raw "Book" [] ∷ raw "Pack" ("Book" ∷ []) ∷ []

abbrev IsTitle : String → Type 0
IsTitle s = (str_eq s "Book" ≡ true)

-- The plan of the answer, with the first task completed.
abbrev decomposed : Plan
decomposed = record {
  id = "fresh";
  goal = "trip";
  tasks =
      record (task "fresh" [] pending) { plan_id = "fresh"; title = "Book"; created_at = 2 }
      ∷ record (task "fresh" ("Book" ∷ []) pending) {
        plan_id = "fresh";
        title = "Pack";
        created_at = 3;
      }
      ∷ [];
  status = pending;
  created_at = 1;
  completed_at = none;
}

abbrev kept : Task → TaskStatus
kept t = t.status

-- A decoder that reads one text.
abbrev parse : String → Result (List RawTask)
parse s = if str_eq s "hello" then ok answer else err (text "not JSON")

titles_only :
    (resp : ChatResponse) (ts : List RawTask)
    → (greeter.chat (decompose_request "trip" []) 0).0 ≡ ok resp
    → parse resp.message.content ≡ ok ts
    → All (λ r. All IsTitle r.dependencies) ts
titles_only resp ts said e =
    let reply : "hello" ≡ resp.message.content =
      ap (λ r. elim r [ ok x ↦ x.message.content | err y ↦ "hello" ]) said in
    let decoded : ok answer ≡ ok ts = ap parse reply ∙ e in
    let same : answer ≡ ts = cc decoded in
    subst (λ l. All (λ r. All IsTitle r.dependencies) l) same (tt, ((refl, tt), tt))

decompose_blocks_example :
    (record (task "fresh" [] pending) {
      plan_id = "fresh";
      title = "Book";
      created_at = 2;
    }).dependencies
    ≡ []
unfolding decompose parse_answer build_plan make_tasks next_task lookup insert
decompose_blocks_example =
    decompose_blocks clock IsTitle greeter parse "trip" [] 0 decomposed kept
      (record (task "fresh" [] pending) { plan_id = "fresh"; title = "Book"; created_at = 2 })
      (λ v h. false≢true h) titles_only refl refl
