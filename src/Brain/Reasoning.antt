-- ===== src/Brain/Reasoning.antt =====
-- apps/bzy-brain/internal/reasoning/reasoning.go: the ReAct loop and the single-pass chain of
-- thought, with a provider and a tool registry over a world of any type.
pub mod Traces
use bzy_personal.Prelude.{
  ℕ, zero, suc, ◌+◌, ◌-◌, Bool, true, false, String, List, [], ◌∷◌, ◌++◌, Option, none, some, ◌&&◌,
  ◌==◌, str_eq, if◌then◌else◌, is_empty, not,
}
use bzy_personal.Errors.{Error, text, wrap, Result, ok, err, error_message, decimal, ◌<>◌}
use bzy_personal.Runtime.{Env}
use bzy_personal.Brain.Providers.{
  Message, ToolCall, ToolSpec, ChatRequest, ChatResponse, Provider, Role,
}
use bzy_personal.Brain.Tools
use bzy_personal.Brain.Tools.{Tool, to_provider_specs}

-- `Mode` is an open string type in Go: `other` is any text that is none of the constants. The
-- empty text is a constructor of its own, since `Reason` replaces it.
pub data Mode : Type 0 where
  unset react cot tot : Mode
  other : String → Mode

abbrev pub mode_text : Mode → String
mode_text unset = ""
mode_text react = "react"
mode_text cot = "cot"
mode_text tot = "tot"
mode_text (other s) = s

-- `action_args` is the raw argument text that the map holds under "raw".
pub record Step : Type 0 where
  pub thought : String
  pub action : String
  pub action_args : Option String
  pub observation : String
  pub is_final : Bool

pub record Trace : Type 0 where
  pub id : String
  pub query : String
  pub mode : Mode
  pub steps : List Step
  pub answer : String
  pub latency : ℕ
  pub tokens_used : ℕ

pub record ReasoningRequest (W : Type 0) : Type 0 where
  pub query : String
  pub mode : Mode
  pub context : List Message
  pub max_steps : ℕ
  pub tools : List (Tool W)

-- `max_steps` is 10 in an engine that `NewEngine` makes. The provider is the default of its registry, which has
-- one here: Go would panic on a nil provider.
pub record Engine (W : Type 0) : Type 0 where
  pub provider : Provider W
  pub tool_exec : Tools.Registry W
  pub max_steps : ℕ

abbrev pub react_prompt : String
react_prompt =
    "You are a reasoning agent. For complex tasks:\n1. Think about what you need to know\n2. Use available tools to gather information\n3. Continue reasoning until you have a complete answer\n4. When ready, provide your final answer directly without using any tool."

abbrev say : Role → String → Message
say role content = record { role = role; content = content; tool_calls = []; tool_call_id = "" }

unfoldable pub build_react_messages : String → List Message → List Message
build_react_messages query history =
    say Role.system react_prompt ∷ (history ++ say Role.user query ∷ [])

-- What a chain leaves: its error, if any, the trace, and the world.
abbrev pub Chain : Type 0 → Type 0
Chain W = Result (Unit {0}) × Trace × W

abbrev final_step : String → Step
final_step thought = record {
  thought = thought;
  action = "";
  action_args = none;
  observation = "";
  is_final = true;
}

abbrev pub observe : Result String → String
observe (ok s) = s
observe (err e) = "ERROR: " <> error_message e

module _ {W : Type 0} (e : Engine W) where
  -- The branch of a tool call. Only the first call of the message is executed and answered.
  act :
      (List Message → Trace → W → Chain W)
      → List Message
      → Trace
      → Message
      → List ToolCall
      → W
      → Chain W
  act again messages trace m [] w = (
    ok tt,
    record trace { answer = m.content; steps = trace.steps ++ final_step m.content ∷ [] },
    w,
  )
  act again messages trace m (tc ∷ tcs) w =
      let (r, w') = Tools.execute e.tool_exec tc.name tc.arguments w in
      let obs = observe r in
      again
        (messages
          ++ record {
            role = Role.assistant;
            content = m.content;
            tool_calls = tc ∷ tcs;
            tool_call_id = "";
          }
            ∷ record { role = Role.tool; content = obs; tool_calls = []; tool_call_id = tc.id }
            ∷ [])
        (record trace {
          steps =
              trace.steps
              ++ record {
                thought = m.content;
                action = tc.name;
                action_args = some tc.arguments;
                observation = obs;
                is_final = false;
              }
                ∷ [];
        })
        w'

  -- The body of the loop, after the call of the provider.
  react_step :
      (List Message → Trace → W → Chain W)
      → ℕ
      → List Message
      → Trace
      → Result ChatResponse × W
      → Chain W
  unfolding act
  react_step again i messages trace (err x, w) =
      (err (wrap ("reasoning step " <> decimal i <> ": ") x), trace, w)
  react_step again i messages trace (ok resp, w) =
      act again messages trace resp.message
        (if str_eq resp.finish "tool_calls" then resp.message.tool_calls else []) w

  -- `for i := ...`, with the rounds left.
  react_from : ℕ → List ToolSpec → ℕ → ℕ → List Message → Trace → W → Chain W
  unfolding react_step
  react_from max specs zero i messages trace w =
      (err (text ("reasoning exceeded max steps (" <> decimal max <> ")")), trace, w)
  react_from max specs (suc left) i messages trace w =
      react_step (λ ms t w'. react_from max specs left (i + 1) ms t w') i messages trace
        (e.provider.chat (record { messages = messages; tools = specs; temperature = 10 }) w)

  unfoldable pub run_react : ReasoningRequest W → Trace → ℕ → W → Chain W
  unfolding react_from build_react_messages
  run_react req trace max w =
      react_from max (to_provider_specs req.tools) max 0
        (build_react_messages req.query req.context) trace w

  cot_answer : Trace → Result ChatResponse × W → Chain W
  cot_answer trace (err x, w) = (err x, trace, w)
  cot_answer trace (ok resp, w) = (
    ok tt,
    record trace { steps = final_step resp.message.content ∷ []; answer = resp.message.content },
    w,
  )

  unfoldable pub run_cot : ReasoningRequest W → Trace → W → Chain W
  unfolding cot_answer
  run_cot req trace w =
      let prompt = say Role.system "Think step by step before giving your final answer." in
      cot_answer trace (
        e.provider.chat
          (record {
            messages = prompt ∷ (req.context ++ say Role.user req.query ∷ []);
            tools = [];
            temperature = 20;
          })
          w)

-- What `Reason` returns: a trace or nil, and an error or nil.
abbrev pub Reasoned : Type 0 → Type 0
Reasoned W = Option Trace × Option Error × W

-- `if req.Mode == "" { req.Mode = ModeReAct }`
abbrev pub or_react : Mode → Mode
or_react unset = react
or_react (other s) = other s
or_react m = m

module _ {W : Type 0} (env : Env W) where
  close : ℕ → Chain W → Reasoned W
  close start (err x, trace, w) = (some trace, some x, w)
  close start (ok u, trace, w) =
      let (stop, w') = env.now w in (some (record trace { latency = stop - start }), none, w')

module _ {W : Type 0} (env : Env W) (e : Engine W) where
  -- The `switch`, after the empty mode is replaced.
  dispatch : Mode → ReasoningRequest W → Trace → ℕ → ℕ → W → Reasoned W
  unfolding close run_react run_cot
  dispatch react req trace max start w = close env start (run_react e req trace max w)
  dispatch cot req trace max start w = close env start (run_cot e req trace w)
  dispatch mode req trace max start w =
      (none, some (text ("unsupported reasoning mode: " <> mode_text mode)), w)

  -- The trace keeps the mode of the request as it came, also where it was empty.
  unfoldable pub reason : ReasoningRequest W → W → Reasoned W
  unfolding dispatch
  reason req w =
      let (start, w1) = env.now w in
      let (id, w2) = env.fresh w1 in
      let trace : Trace = record {
        id = id;
        query = req.query;
        mode = req.mode;
        steps = [];
        answer = "";
        latency = 0;
        tokens_used = 0;
      } in
      dispatch (or_react req.mode) req trace
        (if req.max_steps == 0 then e.max_steps else req.max_steps) start w2
