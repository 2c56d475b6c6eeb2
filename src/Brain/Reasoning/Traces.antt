-- ===== src/Brain/Reasoning/Traces.antt =====
-- The shape of the traces that a reasoning request leaves.
use bzy_personal.Prelude.{
  ℕ, zero, suc, ◌+◌, ◌≤◌, ◌<◌, ◌≡◌, ◌⊎◌, inl, inr, refl, true, false, List, [], ◌∷◌, ◌++◌, Option,
  none, some, arith, All, All-append, length, length-append, str_eq, ◌==◌, if◌then◌else◌,
}
use bzy_personal.Errors.{Error, Result, ok, err}
use bzy_personal.Runtime.{Env}
use bzy_personal.Brain.Providers.{Message, ToolCall, ToolSpec, ChatResponse}
use bzy_personal.Brain.Tools
use bzy_personal.Brain.Tools.{to_provider_specs}
use bzy_personal.Brain.Reasoning.{
  Mode, unset, react, cot, tot, other, Step, Trace, Engine, ReasoningRequest, Chain, observe,
  build_react_messages, act, react_step, react_from, run_react, cot_answer, run_cot, close,
  or_react, dispatch, reason,
}

abbrev pub Acting : List Step → Type 0
Acting = All (λ s. s.is_final ≡ false)

-- Acting steps, then one final step whose thought is the answer.
abbrev pub Answered : ℕ → Trace → Type 0
Answered max t =
    (before : List Step) × (final : Step) × (t.steps ≡ before ++ final ∷ [])
    × Acting before
    × (final.is_final ≡ true)
    × (t.answer ≡ final.thought)
    × (length t.steps ≤ max)

-- Acting steps only, and no answer.
abbrev pub Unanswered : ℕ → Trace → Type 0
Unanswered max t = Acting t.steps × (t.answer ≡ "") × (length t.steps ≤ max)

abbrev pub Told : ℕ → Result (Unit {0}) → Trace → Type 0
Told max (ok u) t = Answered max t
Told max (err e) t = Unanswered max t

module _ {W : Type 0} (e : Engine W) where
  react_step-Told :
      (max i : ℕ) (again : List Message → Trace → W → Chain W) (messages : List Message) (t : Trace)
      (c : Result ChatResponse × W)
      → i < max
      → Acting t.steps
      → t.answer ≡ ""
      → length t.steps ≡ i
      → ((ms : List Message) (t' : Trace) (w' : W)
          → Acting t'.steps
          → t'.answer ≡ ""
          → length t'.steps ≡ i + 1
          → Told max (again ms t' w').0 (again ms t' w').1)
      → let o = react_step e again i messages t c in Told max o.0 o.1
  unfolding react_step
  react_step-Told max i again messages t (err x, w) room acts quiet len more =
      (acts, quiet, omega arith)
  react_step-Told max i again messages t (ok resp, w) room acts quiet len more =
      called (if str_eq resp.finish "tool_calls" then resp.message.tool_calls else [])
    where
      longer : (s : Step) → length (t.steps ++ s ∷ []) ≡ i + 1
      longer s = omega (arith, length-append t.steps (s ∷ []))

      called :
          (tcs : List ToolCall)
          → let o = act e again messages t resp.message tcs w in Told max o.0 o.1
      called [] = (t.steps, _, refl, acts, refl, refl, omega (arith, longer _))
      called (tc ∷ tcs) =
          let (r, w') = Tools.execute e.tool_exec tc.name tc.arguments w in
          let s : Step = record {
            thought = resp.message.content;
            action = tc.name;
            action_args = some tc.arguments;
            observation = observe r;
            is_final = false;
          } in
          more _ (record t { steps = t.steps ++ s ∷ [] }) w'
            (All-append (λ s'. s'.is_final ≡ false) t.steps (s ∷ []) acts (refl, tt)) quiet
            (longer s)

  react_from-Told :
      (max : ℕ) (specs : List ToolSpec) (left i : ℕ) (messages : List Message) (t : Trace) (w : W)
      → i + left ≡ max
      → Acting t.steps
      → t.answer ≡ ""
      → length t.steps ≡ i
      → let o = react_from e max specs left i messages t w in Told max o.0 o.1
  unfolding react_from
  react_from-Told max specs zero i messages t w sum acts quiet len = (acts, quiet, omega arith)
  react_from-Told max specs (suc left) i messages t w sum acts quiet len =
      react_step-Told max i (λ ms t' w'. react_from e max specs left (i + 1) ms t' w') messages t
        (e.provider.chat (record { messages = messages; tools = specs; temperature = 10 }) w)
        (omega arith) acts quiet len
        (λ ms t' w' a q l. react_from-Told max specs left (i + 1) ms t' w' (omega arith) a q l)

-- The modes that are implemented, after the empty one is read as ReAct.
abbrev pub IsSupported : Mode → Type 0
IsSupported unset = Unit
IsSupported react = Unit
IsSupported cot = Unit
IsSupported tot = ⊥
IsSupported (other s) = ⊥

abbrev pub limit : {W : Type 0} → Engine W → ReasoningRequest W → ℕ
limit e req = if req.max_steps == 0 then e.max_steps else req.max_steps

abbrev pub TraceOf : ℕ → Option Error → Option Trace → Type 0
TraceOf max none none = ⊥
TraceOf max none (some t) = Answered max t
TraceOf max (some x) none = ⊥
TraceOf max (some x) (some t) = Unanswered max t

supported : (m : Mode) → IsSupported m → (or_react m ≡ react) ⊎ (or_react m ≡ cot)
supported unset h = inl refl
supported react h = inl refl
supported cot h = inr refl
supported tot h = absurd h
supported (other s) h = absurd h

module _ {W : Type 0} (env : Env W) (e : Engine W) where
  close-TraceOf :
      (max start : ℕ) (c : Chain W)
      → Told max c.0 c.1
      → let o = close env start c in TraceOf max o.1 o.0
  unfolding close
  close-TraceOf max start (ok u, t, w) h = h
  close-TraceOf max start (err x, t, w) h = h

  cot-Told :
      (max : ℕ) (t : Trace) (c : Result ChatResponse × W)
      → 1 ≤ max
      → t.steps ≡ []
      → t.answer ≡ ""
      → let o = cot_answer e t c in Told max o.0 o.1
  unfolding cot_answer
  cot-Told max t (ok resp, w) room empty quiet = ([], _, refl, tt, refl, refl, room)
  cot-Told max t (err x, w) room empty quiet = rw empty (tt, quiet, omega arith)

  dispatch-TraceOf :
      (m : Mode) (req : ReasoningRequest W) (t : Trace) (max start : ℕ) (w : W)
      → (m ≡ react) ⊎ (m ≡ cot)
      → 1 ≤ max
      → t.steps ≡ []
      → t.answer ≡ ""
      → let o = dispatch env e m req t max start w in TraceOf max o.1 o.0
  unfolding dispatch
  dispatch-TraceOf react req t max start w h room empty quiet =
      close-TraceOf max start (run_react e req t max w) (
        react_from-Told e max (to_provider_specs req.tools) max 0
          (build_react_messages req.query req.context) t w (omega arith) (rw empty tt) quiet
          (rw empty))
  dispatch-TraceOf cot req t max start w h room empty quiet =
      close-TraceOf max start (run_cot e req t w) (cot-Told max t _ room empty quiet)
  dispatch-TraceOf unset req t max start w h room empty quiet = ground arith
  dispatch-TraceOf tot req t max start w h room empty quiet = ground arith
  dispatch-TraceOf (other s) req t max start w h room empty quiet = ground arith

  -- In a mode that is implemented (ReAct, also by an empty mode, or chain of thought) `Reason`
  -- returns a trace, with an error or without. Without one, the trace is of acting steps, at most
  -- `max` steps in all, ended by the only final step, whose thought is the answer. With an error
  -- no step is final, there is no answer, and the steps made are at most `max`, which is the
  -- request's limit or else the engine's, and positive.
  pub reason-TraceOf :
      (req : ReasoningRequest W) (w : W)
      → IsSupported req.mode
      → 1 ≤ limit e req
      → let o = reason env e req w in TraceOf (limit e req) o.1 o.0
  unfolding reason
  reason-TraceOf req w mode room =
      let (start, w1) = env.now w in
      let (id, w2) = env.fresh w1 in
      dispatch-TraceOf (or_react req.mode) req
        (record {
          id = id;
          query = req.query;
          mode = req.mode;
          steps = [];
          answer = "";
          latency = 0;
          tokens_used = 0;
        })
        (limit e req) start w2 (supported req.mode mode) room refl refl
