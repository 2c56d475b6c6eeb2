-- ===== src/Brain/Tools.antt =====
-- apps/bzy-brain/internal/tools/tool.go: the interface of a tool, the registry, the executor.
use bzy_personal.Prelude.{String, List, [], ◌∷◌, map, Option, none, some}
use bzy_personal.Prelude.Map.{Map, lookup, insert, values}
use bzy_personal.Errors.{text, Result, ok, err, ◌<>◌}
use bzy_personal.Runtime.{Json}
use bzy_personal.Brain.Providers.{ToolSpec}

pub record Spec : Type 0 where
  pub name : String
  pub description : String
  pub parameters : Json

pub record Tool (W : Type 0) : Type 0 where
  pub spec : Spec
  pub execute : Json → W → Result String × W

abbrev pub Registry : Type 0 → Type 0
Registry W = Map (Tool W)

module _ {W : Type 0} where
  unfoldable pub current_time_tool : Tool W
  current_time_tool = record {
    spec = record {
      name = "get_current_time";
      description = "Returns the current UTC time in ISO 8601 format";
      parameters = "{\"type\": \"object\", \"properties\": {}, \"required\": []}";
    };
    execute = λ args w. (ok "{\"time\": \"2026-05-08T00:00:00Z\"}", w);
  }

  unfoldable pub register : Tool W → Registry W → Registry W
  register t r = insert t.spec.name t r

  -- `NewRegistry`: the built-in tools are there from the start.
  unfoldable pub new_registry : Registry W
  unfolding current_time_tool
  new_registry = insert "get_current_time" current_time_tool []

  unfoldable pub get : String → Registry W → Option (Tool W)
  get name r = lookup name r

  unfoldable pub list : Registry W → List Spec
  list r = map (λ t. t.spec) (values r)

  execute_found : Option (Tool W) → String → Json → W → Result String × W
  execute_found none name args w = (err (text ("tool not found: " <> name)), w)
  execute_found (some t) name args w = t.execute args w

  -- `executor.Execute`.
  unfoldable pub execute : Registry W → String → Json → W → Result String × W
  unfolding execute_found get
  execute r name args w = execute_found (get name r) name args w

  unfoldable pub to_provider_specs : List (Tool W) → List ToolSpec
  to_provider_specs [] = []
  to_provider_specs (t ∷ ts) =
      record {
        name = t.spec.name;
        description = t.spec.description;
        parameters = t.spec.parameters;
      }
      ∷ to_provider_specs ts
