-- ===== src/Brain/Agents/Run/Examples.antt =====
-- A run of an agent whose provider answers at once.
use bzy_personal.Prelude.{ℕ, ◌≤◌, ◌≡◌, refl, some, arith}
use bzy_personal.Errors.{Result}
use bzy_personal.Brain.Samples.{clock, greeter, greeting_agent}
use bzy_personal.Brain.Agents.{RunResult, LiveAgent}
use bzy_personal.Brain.Agents.Run.{run, run_with, steps_from, after_chat, finish_run, process_calls}
use bzy_personal.Brain.Agents.Run.Bounds.{RunReport, run-Report}
use bzy_personal.Brain.Agents.Run.Protocol.{run-Talk}

run-Report_example :
    (o : Result RunResult × LiveAgent ℕ × ℕ) × (run clock greeting_agent "hi" 0 ≡ some o)
    × RunReport greeting_agent o
run-Report_example = run-Report clock greeting_agent greeter "hi" 0 refl

-- The world is never before its start.
run-Talk_example : 7 ≤ 11
unfolding run run_with steps_from after_chat finish_run process_calls
run-Talk_example =
    run-Talk clock greeting_agent greeter "hi" 7 (λ w. 7 ≤ w) _ (λ w h. omega arith)
      (λ req w t h. omega arith) tt refl refl (omega arith)
