-- ===== src/Brain/Agents/Run/Protocol.antt =====
-- The conversation that an agent keeps with its provider.
use mathlib.Core.Path.{subst}
use mathlib.Core.List.{append_assoc, append-nil}
use bzy_personal.Prelude.{
  ℕ, zero, suc, ◌+◌, ◌≡◌, inl, inr, String, List, [], ◌∷◌, sym, ap, ◌∙◌, All, str_eq, ◌++◌, some,
  Bool-cases,
}
use bzy_personal.Errors.{Result, ok, err}
use bzy_personal.Runtime.{Env, Json}
use bzy_personal.Brain.Providers.{Message, ToolCall, ChatRequest, ChatResponse, Provider, Role}
use bzy_personal.Brain.Tools.{Tool}
use bzy_personal.Brain.Agents.{AgentState, LiveAgent, RunResult}
use bzy_personal.Brain.Agents.Run.{
  Ending, say, observed, is_last, reply_to, execute_tool, process_calls, request, after_chat,
  steps_from, step_limit, started, with_state, run,
}

-- One tool message for each call, in the order of the calls, and nothing else.
pub data Replies : List ToolCall → List Message → Type 0 where
  none_left : Replies [] []
  reply :
      {tc : ToolCall} {obs : String} {tcs : List ToolCall} {ms : List Message}
      → Replies tcs ms
      → Replies (tc ∷ tcs) (reply_to tc obs ∷ ms)

-- A conversation in which every call of a tool has its answer: the system prompt and the input,
-- then turns of a message and the answers to its calls.
pub data Talk (prompt input : String) : List Message → Type 0 where
  opening : Talk prompt input (say Role.system prompt ∷ say Role.user input ∷ [])
  turn :
      {ms replies all : List Message} (m : Message)
      → Talk prompt input ms
      → Replies m.tool_calls replies
      → all ≡ ms ++ m ∷ replies
      → Talk prompt input all

module _ {W : Type 0} (tools : List (Tool W)) where
  process_calls-Replies :
      (tcs : List ToolCall) (ms : List Message) (w : W)
      → (rs : List Message) × ((process_calls tools tcs ms w).0 ≡ ms ++ rs) × Replies tcs rs
  unfolding process_calls
  process_calls-Replies [] ms w = ([], sym (append-nil ms), none_left)
  process_calls-Replies (tc ∷ tcs) ms w =
      let (obs, w') = execute_tool tools tc.name tc.arguments w in
      let (rs, e, r) = process_calls-Replies tcs (ms ++ reply_to tc obs ∷ []) w' in
      (reply_to tc obs ∷ rs, e ∙ append_assoc ms (reply_to tc obs ∷ []) rs, reply r)

module _ {W : Type 0} (Good : W → Type 0) where
  abbrev pub ToolKeeps : Tool W → Type 0
  ToolKeeps t = (args : Json) (w : W) → Good w → Good (t.execute args w).1

  observed-Good : (o : Result String × W) → Good o.1 → Good (observed o).1
  unfolding observed
  observed-Good (ok s, w) h = h
  observed-Good (err e, w) h = h

  execute_tool-Good :
      (tools : List (Tool W)) (name : String) (args : Json) (w : W)
      → All ToolKeeps tools
      → Good w
      → Good (execute_tool tools name args w).1
  unfolding execute_tool
  execute_tool-Good [] name args w keeps h = h
  execute_tool-Good (t ∷ ts) name args w keeps h = elim (Bool-cases (str_eq t.spec.name name)) [
    | inl e ↦ rw e (observed-Good (t.execute args w) (keeps.0 args w h))
    | inr e ↦ rw e (execute_tool-Good ts name args w keeps.1 h)
  ]

  process_calls-Good :
      (tools : List (Tool W)) (tcs : List ToolCall) (ms : List Message) (w : W)
      → All ToolKeeps tools
      → Good w
      → Good (process_calls tools tcs ms w).1
  unfolding process_calls
  process_calls-Good tools [] ms w keeps h = h
  process_calls-Good tools (tc ∷ tcs) ms w keeps h =
      let (obs, w') = execute_tool tools tc.name tc.arguments w in
      process_calls-Good tools tcs (ms ++ reply_to tc obs ∷ []) w' keeps
        (execute_tool-Good tools tc.name tc.arguments w keeps h)

module _ {W : Type 0} (env : Env W) (p : Provider W) (prompt input : String) (Good : W → Type 0)
    (now-Good : (w : W) → Good w → Good (env.now w).1)
    (chat-Good : (req : ChatRequest) (w : W)
      → Talk prompt input req.messages
      → Good w
      → Good (p.chat req w).1) where
  after_chat-Good :
      (temperature : ℕ) (tools : List (Tool W)) (start step : ℕ) (again : AgentState → W → Ending W)
      (st : AgentState) (c : Result ChatResponse × W)
      → All (ToolKeeps Good) tools
      → Talk prompt input st.messages
      → Good c.1
      → ((st' : AgentState) (w' : W)
          → Talk prompt input st'.messages
          → Good w'
          → Good (again st' w').2)
      → Good (after_chat env p temperature tools again start step st c).2
  unfolding after_chat
  after_chat-Good temperature tools start step again st (err e, w) keeps talk h more = h
  after_chat-Good temperature tools start step again st (ok resp, w) keeps talk h more =
      elim (Bool-cases (is_last resp)) [
        | inl last ↦ rw last (now-Good _ (now-Good w h))
        | inr next ↦
            let tcs = resp.message.tool_calls in
            let ms1 = st.messages ++ resp.message ∷ [] in
            let (ms, w') = process_calls tools tcs ms1 w in
            let (rs, e, r) = process_calls-Replies tools tcs ms1 w in
            rw next (
              more (record st { messages = ms; step_count = st.step_count + 1 }) w'
                (turn resp.message talk r (e ∙ append_assoc st.messages (resp.message ∷ []) rs))
                (process_calls-Good Good tools tcs ms1 w keeps h))
      ]

  steps_from-Good :
      (temperature : ℕ) (tools : List (Tool W)) (max left start step : ℕ) (st : AgentState) (w : W)
      → All (ToolKeeps Good) tools
      → Talk prompt input st.messages
      → Good w
      → Good (steps_from env p temperature tools max left start step st w).2
  unfolding steps_from
  steps_from-Good temperature tools max zero start step st w keeps talk h = h
  steps_from-Good temperature tools max (suc left) start step st w keeps talk h =
      let req = request temperature tools st.messages in
      after_chat-Good temperature tools start step
        (λ st' w'. steps_from env p temperature tools max left start (step + 1) st' w') st
        (p.chat req w) keeps talk (chat-Good req w talk h)
        (λ st' w' t g. steps_from-Good temperature tools max left start (step + 1) st' w' keeps t g)

-- In every request of a run each call of a tool is answered: a run keeps whatever property of the
-- world the clock, the tools of the agent, and those calls of the provider keep whose messages are
-- the system prompt, the input and then turns of a message with one answer to each of its calls.
pub run-Talk :
    {W : Type 0} (env : Env W) (a : LiveAgent W) (p : Provider W) (input : String) (w : W)
    (Good : W → Type 0) (o : Result RunResult × LiveAgent W × W)
    → ((w' : W) → Good w' → Good (env.now w').1)
    → ((req : ChatRequest) (w' : W)
        → Talk a.def.system_prompt input req.messages
        → Good w'
        → Good (p.chat req w').1)
    → All (ToolKeeps Good) a.tools
    → a.provider ≡ some p
    → run env a input w ≡ some o
    → Good w
    → Good o.2
unfolding run
run-Talk env a p input w Good o now-Good chat-Good keeps e ran h =
    let (start, w1) = env.now w in
    let max = step_limit a.def.max_steps in
    let end = steps_from env p a.def.temperature a.tools max max start 0 (started a input) w1 in
    let done =
      steps_from-Good env p a.def.system_prompt input Good now-Good chat-Good a.def.temperature
        a.tools max max start 0 (started a input) w1 keeps opening (now-Good w h) in
    let computed : run env a input w ≡ some (with_state a end) = rw e in
    let same : some (with_state a end) ≡ some o = sym computed ∙ ran in
    let eq : with_state a end ≡ o = cc same in subst Good (ap (λ x. x.2) eq) done
