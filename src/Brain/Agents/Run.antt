-- ===== src/Brain/Agents/Run.antt =====
-- `liveAgent.Run` and `executeTool` of apps/bzy-brain/internal/agents/agent.go.
pub mod Bounds
pub mod Protocol
mod Examples
use bzy_personal.Prelude.{
  ℕ, zero, suc, ◌+◌, ◌-◌, Bool, String, List, [], ◌∷◌, ◌++◌, Option, none, some, ◌||◌, ◌==◌, str_eq,
  if◌then◌else◌, is_empty,
}
use bzy_personal.Errors.{Error, Result, ok, err, error_message, max_steps_exceeded, ◌<>◌}
use bzy_personal.Runtime.{Env}
use bzy_personal.Brain.Providers.{Message, ToolCall, ChatRequest, ChatResponse, Provider, Role}
use bzy_personal.Brain.Tools.{Tool, to_provider_specs}
use bzy_personal.Brain.Agents.{AgentState, RunResult, LiveAgent, AgentStatus}

abbrev pub say : Role → String → Message
say role content = record { role = role; content = content; tool_calls = []; tool_call_id = "" }

abbrev pub reply_to : ToolCall → String → Message
reply_to tc obs = record { role = Role.tool; content = obs; tool_calls = []; tool_call_id = tc.id }

-- What the loop returns: the result, the state that it leaves, and the world.
abbrev pub Ending : Type 0 → Type 0
Ending W = Result RunResult × AgentState × W

module _ {W : Type 0} where
  observed : Result String × W → String × W
  observed (ok s, w) = (s, w)
  observed (err e, w) = ("error: " <> error_message e, w)

  -- `executeTool`: the first tool of that name.
  unfoldable pub execute_tool : List (Tool W) → String → String → W → String × W
  unfolding observed
  execute_tool [] name args w = ("tool not found: " <> name, w)
  execute_tool (t ∷ ts) name args w =
      let rest = execute_tool ts name args w in
      if str_eq t.spec.name name then observed (t.execute args w) else rest

  -- The inner loop: one tool message for each call.
  unfoldable pub process_calls : List (Tool W) → List ToolCall → List Message → W → List Message × W
  process_calls tools [] ms w = (ms, w)
  process_calls tools (tc ∷ tcs) ms w =
      let (obs, w') = execute_tool tools tc.name tc.arguments w in
      process_calls tools tcs (ms ++ reply_to tc obs ∷ []) w'

-- The answer ends the run.
abbrev pub is_last : ChatResponse → Bool
is_last resp = str_eq resp.finish "stop" || is_empty resp.message.tool_calls

abbrev pub request : {W : Type 0} → ℕ → List (Tool W) → List Message → ChatRequest
request temperature tools ms = record {
  messages = ms;
  tools = to_provider_specs tools;
  temperature = temperature;
}

module _ {W : Type 0} (env : Env W) (p : Provider W) (temperature : ℕ) (tools : List (Tool W)) where
  finish_run : ℕ → ℕ → AgentState → ChatResponse → W → Ending W
  finish_run start step st resp w =
      let (now, w1) = env.now w in
      let (stop, w2) = env.now w1 in
      (
        ok (record {
          agent_id = st.id;
          answer = resp.message.content;
          steps = step + 1;
          latency = stop - start;
        }),
        record st { status = AgentStatus.finished; finished_at = some now },
        w2,
      )

  -- The body of the loop, after the call of the provider.
  after_chat : (AgentState → W → Ending W) → ℕ → ℕ → AgentState → Result ChatResponse × W → Ending W
  unfolding finish_run
  after_chat again start step st (err e, w) = (err e, record st { status = AgentStatus.failed }, w)
  after_chat again start step st (ok resp, w) =
      let st1 = record st {
        messages = st.messages ++ resp.message ∷ [];
        step_count = st.step_count + 1;
      } in
      let (ms, w') = process_calls tools resp.message.tool_calls st1.messages w in
      if is_last resp
      then finish_run start step st1 resp w
      else again (record st1 { messages = ms }) w'

  -- `for step := ...`, with the rounds left.
  steps_from : ℕ → ℕ → ℕ → ℕ → AgentState → W → Ending W
  unfolding after_chat
  steps_from max zero start step st w =
      (err (max_steps_exceeded max), record st { status = AgentStatus.failed }, w)
  steps_from max (suc left) start step st w =
      after_chat (λ st' w'. steps_from max left start (step + 1) st' w') start step st
        (p.chat (request temperature tools st.messages) w)

-- The limit of a run: 10 where the definition has 0.
abbrev pub step_limit : ℕ → ℕ
step_limit n = if n == 0 then 10 else n

-- The state that `Run` starts its loop in.
abbrev pub started : {W : Type 0} → LiveAgent W → String → AgentState
started a input = record a.state {
  status = AgentStatus.running;
  messages = say Role.system a.def.system_prompt ∷ say Role.user input ∷ [];
}

abbrev pub with_state : {W : Type 0} → LiveAgent W → Ending W → Result RunResult × LiveAgent W × W
with_state a e = let (r, st, w) = e in (r, record a { state = st }, w)

module _ {W : Type 0} (env : Env W) where
  run_with : Option (Provider W) → LiveAgent W → String → W → Option (Ending W)
  unfolding steps_from
  run_with none a input w = none
  run_with (some p) a input w =
      let (start, w1) = env.now w in
      let max = step_limit a.def.max_steps in
      some (steps_from env p a.def.temperature a.tools max max start 0 (started a input) w1)

  -- `Run`; `none` is the panic of a call on a nil provider.
  unfoldable pub run : LiveAgent W → String → W → Option (Result RunResult × LiveAgent W × W)
  unfolding run_with
  run a input w = elim (run_with a.provider a input w) [
    | none ↦ none
    | some e ↦ some (with_state a e)
  ]
