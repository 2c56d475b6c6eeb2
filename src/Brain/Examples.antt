-- ===== src/Brain/Examples.antt =====
-- The provider registry and the reasoning engine at concrete inputs.
use bzy_personal.Prelude.{ℕ, [], ◌∷◌, inr, inl, arith}
use bzy_personal.Brain.Samples.{clock, greeter}
use bzy_personal.Brain.Providers.{new_registry}
use bzy_personal.Brain.Providers.Defaulting.{add, choose, run, HasDefault, run-new-HasDefault}
use bzy_personal.Brain.Reasoning.{ReasoningRequest, Engine, react, reason}
use bzy_personal.Brain.Reasoning.Traces.{limit, TraceOf, reason-TraceOf}

run-new-HasDefault_example :
    HasDefault {W = ℕ} (run new_registry (choose "other" ∷ add greeter ∷ choose "none" ∷ []))
run-new-HasDefault_example =
    run-new-HasDefault {W = ℕ} (choose "other" ∷ add greeter ∷ choose "none" ∷ []) (inr (inl tt))

abbrev engine : Engine ℕ
engine = record { provider = greeter; tool_exec = []; max_steps = 10 }

abbrev question : ReasoningRequest ℕ
question = record { query = "how are you?"; mode = react; context = []; max_steps = 3; tools = [] }

reason-TraceOf_example :
    TraceOf
      (limit engine question)
      (reason clock engine question 5).1
      (reason clock engine question 5).0
reason-TraceOf_example = reason-TraceOf clock engine question 5 tt (omega arith)
