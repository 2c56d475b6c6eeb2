-- ===== src/Brain/Agents/Run/Bounds.antt =====
-- How a run of an agent ends.
use bzy_personal.Prelude.{
  ℕ, zero, suc, ◌+◌, ◌≤◌, ◌<◌, ◌≡◌, ◌⊎◌, inl, inr, refl, String, List, [], ◌∷◌, ◌++◌, some, arith,
  Bool-cases,
}
use bzy_personal.Errors.{Result, ok, err, max_steps_exceeded}
use bzy_personal.Runtime.{Env}
use bzy_personal.Brain.Providers.{Message, ChatResponse, Provider}
use bzy_personal.Brain.Tools.{Tool}
use bzy_personal.Brain.Agents.{AgentState, RunResult, LiveAgent, AgentStatus}
use bzy_personal.Brain.Agents.Run.{
  Ending, is_last, process_calls, after_chat, steps_from, step_limit, started, request, with_state,
  run,
}

abbrev pub EndsWith : List Message → String → Type 0
EndsWith ms answer =
    (before : List Message) × (m : Message) × (ms ≡ before ++ m ∷ []) × (m.content ≡ answer)

-- What a run with the limit `max`, of an agent that had made `old` steps before, leaves behind.
abbrev pub Report : ℕ → ℕ → Result RunResult → AgentState → Type 0
Report max old (ok r) st =
    (1 ≤ r.steps)
    × (r.steps ≤ max)
    × (st.step_count ≡ old + r.steps)
    × (st.status ≡ AgentStatus.finished)
    × ((t : ℕ) × (st.finished_at ≡ some t))
    × (r.agent_id ≡ st.id)
    × EndsWith st.messages r.answer
Report max old (err e) st =
    (st.status ≡ AgentStatus.failed)
    × ((st.step_count < old + max) ⊎ ((e ≡ max_steps_exceeded max) × (st.step_count ≡ old + max)))

module _ {W : Type 0} (env : Env W) (p : Provider W) (temperature : ℕ) (tools : List (Tool W)) where
  after_chat-Report :
      (max old start step : ℕ) (again : AgentState → W → Ending W) (st : AgentState)
      (c : Result ChatResponse × W)
      → step < max
      → st.step_count ≡ old + step
      → ((st' : AgentState) (w' : W)
          → st'.step_count ≡ old + (step + 1)
          → Report max old (again st' w').0 (again st' w').1)
      → let e = after_chat env p temperature tools again start step st c in Report max old e.0 e.1
  unfolding after_chat
  after_chat-Report max old start step again st (err e, w) room count more =
      (refl, inl (omega arith))
  after_chat-Report max old start step again st (ok resp, w) room count more =
      elim (Bool-cases (is_last resp)) [
        | inl last ↦ rw last (
          omega arith,
          omega arith,
          omega arith,
          refl,
          (_, refl),
          refl,
          (st.messages, resp.message, refl, refl),
        )
        | inr next ↦
            let ms1 = st.messages ++ resp.message ∷ [] in
            let (ms, w') = process_calls tools resp.message.tool_calls ms1 w in
            rw next
              (more (record st { messages = ms; step_count = st.step_count + 1 }) w' (omega arith))
      ]

  steps_from-Report :
      (max old start left step : ℕ) (st : AgentState) (w : W)
      → step + left ≡ max
      → st.step_count ≡ old + step
      → let e = steps_from env p temperature tools max left start step st w in
        Report max old e.0 e.1
  unfolding steps_from
  steps_from-Report max old start zero step st w sum count = (refl, inr (refl, omega arith))
  steps_from-Report max old start (suc left) step st w sum count =
      after_chat-Report max old start step
        (λ st' w'. steps_from env p temperature tools max left start (step + 1) st' w') st
        (p.chat (request temperature tools st.messages) w) (omega arith) count
        (λ st' w' c. steps_from-Report max old start left (step + 1) st' w' (omega arith) c)

abbrev pub RunReport : {W : Type 0} → LiveAgent W → Result RunResult × LiveAgent W × W → Type 0
RunReport a o = Report (step_limit a.def.max_steps) a.state.step_count o.0 o.1.state

-- A run with a provider returns, and its report holds. Either it gives an answer: after 1 to `max`
-- calls of the provider, all of them counted in `step_count`, the agent is finished, with its time,
-- and the answer is the content of the last message. Or it fails: the agent is failed, and fewer
-- than `max` answers came, or `max` came and the error says so. `max` is the limit of the
-- definition, 10 where that is 0, and `step_count` goes on from what it was.
pub run-Report :
    {W : Type 0} (env : Env W) (a : LiveAgent W) (p : Provider W) (input : String) (w : W)
    → a.provider ≡ some p
    → (o : Result RunResult × LiveAgent W × W) × (run env a input w ≡ some o) × RunReport a o
unfolding run
run-Report env a p input w h =
    let (start, w1) = env.now w in
    let max = step_limit a.def.max_steps in
    let e = steps_from env p a.def.temperature a.tools max max start 0 (started a input) w1 in
    (
      with_state a e,
      rw h,
      steps_from-Report env p a.def.temperature a.tools max a.state.step_count start max 0
          (started a input) w1 (omega arith) (omega arith),
    )
