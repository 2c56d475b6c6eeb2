-- ===== src/Brain/Planning.antt =====
-- apps/bzy-brain/internal/planning/planning.go: a goal is decomposed into tasks by a provider, and
-- the next task is chosen by the dependencies. The JSON decoder is a parameter.
pub mod Next
pub mod Titles
mod Examples
use bzy_personal.Prelude.{
  ℕ, Bool, true, false, String, List, [], ◌∷◌, ◌++◌, Option, none, some, ◌&&◌, if◌then◌else◌,
}
use bzy_personal.Prelude.Map.{Map, lookup, insert}
use bzy_personal.Errors.{Error, wrap, Result, ok, err, ◌<>◌}
use bzy_personal.Runtime.{Env, Json}
use bzy_personal.Brain.Providers.{Message, ChatRequest, ChatResponse, Provider, Role}

pub data TaskStatus : Type 0 where
  pending running completed failed skipped blocked : TaskStatus

-- `Children` is left out: no code reads or writes it.
pub record Task : Type 0 where
  pub id : String
  pub plan_id : String
  pub parent_id : String
  pub title : String
  pub description : String
  pub type : String
  pub tool_id : String
  pub parameters : Json
  pub dependencies : List String
  pub status : TaskStatus
  pub result : Json
  pub error : String
  pub order : ℕ
  pub created_at : ℕ
  pub completed_at : Option ℕ

pub record Plan : Type 0 where
  pub id : String
  pub goal : String
  pub tasks : List Task
  pub status : TaskStatus
  pub created_at : ℕ
  pub completed_at : Option ℕ

-- A task of the provider's answer.
pub record RawTask : Type 0 where
  pub title : String
  pub description : String
  pub type : String
  pub tool_id : String
  pub dependencies : List String
  pub order : ℕ

abbrev pub decompose_prompt : String → String
decompose_prompt goal =
    "Decompose the following goal into a JSON task plan.\nOutput ONLY valid JSON matching this schema:\n{\n  \"tasks\": [\n    {\n      \"title\": \"string\",\n      \"description\": \"string\",\n      \"type\": \"tool|agent|human\",\n      \"tool_id\": \"string (optional)\",\n      \"dependencies\": [\"task_title_1\"],\n      \"order\": 0\n    }\n  ]\n}\n\nGoal: "
    <> goal

abbrev say : Role → String → Message
say role content = record { role = role; content = content; tool_calls = []; tool_call_id = "" }

abbrev pub decompose_request : String → List Message → ChatRequest
decompose_request goal context = record {
  messages =
      say Role.system "You are a task planning system. Output only valid JSON."
      ∷ (context ++ say Role.user (decompose_prompt goal) ∷ []);
  tools = [];
  temperature = 0;
}

module _ {W : Type 0} (env : Env W) where
  -- The loop that makes the tasks: each has a fresh identifier and keeps the answer's dependencies.
  make_tasks : String → List RawTask → W → List Task × W
  make_tasks plan_id [] w = ([], w)
  make_tasks plan_id (t ∷ ts) w =
      let (id, w1) = env.fresh w in
      let (at, w2) = env.now w1 in
      let (rest, w3) = make_tasks plan_id ts w2 in
      (
        record {
          id = id;
          plan_id = plan_id;
          parent_id = "";
          title = t.title;
          description = t.description;
          type = t.type;
          tool_id = t.tool_id;
          parameters = "";
          dependencies = t.dependencies;
          status = pending;
          result = "";
          error = "";
          order = t.order;
          created_at = at;
          completed_at = none;
        }
            ∷ rest,
        w3,
      )

  build_plan : String → Result (List RawTask) → W → Result Plan × W
  unfolding make_tasks
  build_plan goal (err x) w = (err (wrap "plan parse: " x), w)
  build_plan goal (ok raw) w =
      let (id, w1) = env.fresh w in
      let (at, w2) = env.now w1 in
      let (tasks, w3) = make_tasks id raw w2 in
      (
        ok (record {
          id = id;
          goal = goal;
          tasks = tasks;
          status = pending;
          created_at = at;
          completed_at = none;
        }),
        w3,
      )

  parse_answer :
      (String → Result (List RawTask)) → String → Result ChatResponse × W → Result Plan × W
  unfolding build_plan
  parse_answer parse goal (err x, w) = (err (wrap "plan decompose: " x), w)
  parse_answer parse goal (ok resp, w) = build_plan goal (parse resp.message.content) w

  -- `Decompose`
  unfoldable pub decompose :
      Provider W → (String → Result (List RawTask)) → String → List Message → W → Result Plan × W
  unfolding parse_answer
  decompose p parse goal context w =
      parse_answer parse goal (p.chat (decompose_request goal context) w)

abbrev pub is_pending : TaskStatus → Bool
is_pending pending = true
is_pending _ = false

abbrev pub is_completed : TaskStatus → Bool
is_completed completed = true
is_completed _ = false

-- The first loop of `NextTask`: the identifiers of the completed tasks, in a map to `true`.
completed_ids : Map Bool → List Task → Map Bool
completed_ids done [] = done
completed_ids done (t ∷ ts) =
    completed_ids (if is_completed t.status then insert t.id true done else done) ts

-- `completed[dep]`: a missing key reads as `false`.
abbrev or_false : Option Bool → Bool
or_false none = false
or_false (some b) = b

is_done : Map Bool → String → Bool
is_done done dep = or_false (lookup dep done)

all_done : Map Bool → List String → Bool
unfolding is_done
all_done done [] = true
all_done done (dep ∷ deps) = is_done done dep && all_done done deps

first_ready : Map Bool → List Task → Option Task
unfolding all_done
first_ready done [] = none
first_ready done (t ∷ ts) =
    let rest = first_ready done ts in
    if is_pending t.status && all_done done t.dependencies then some t else rest

-- `NextTask`
unfoldable pub next_task : Plan → Option Task
unfolding completed_ids first_ready
next_task plan = first_ready (completed_ids [] plan.tasks) plan.tasks
