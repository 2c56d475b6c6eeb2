-- ===== src/Plugin/Examples.antt =====
-- A registry whose plugin is replaced.
use bzy_personal.Prelude.{ℕ, ◌+◌, ◌≡◌, String, [], ◌∷◌, none, some}
use bzy_personal.Brain.Samples.{clock}
use bzy_personal.Plugin.{Plugin, Input, execute, new_registry}
use bzy_personal.Plugin.Registered.{add, remove, run, execute-last_said}

abbrev plugin : String → String → Plugin ℕ
plugin id answer = record {
  manifest = record {
    id = id;
    name = id;
    version = "1";
    description = "";
    author = "";
    capabilities = [];
    schema = "";
  };
  execute = λ i w.
      (some (record { data_json = ""; text = answer; error = ""; latency = 0 }), none, w + 1);
}

abbrev input : Input
input = record { params = "{}"; context = "" }

execute-last_said_example :
    execute clock
      (run new_registry (add (plugin "a" "old") ∷ remove "b" ∷ add (plugin "a" "new") ∷ []))
      "a"
      input
      0
    ≡ (some (record { data_json = ""; text = "new"; error = ""; latency = 2 }), none, 3)
execute-last_said_example =
    execute-last_said clock (add (plugin "a" "old") ∷ remove "b" ∷ add (plugin "a" "new") ∷ []) "a"
      input 0
