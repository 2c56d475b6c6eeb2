-- ===== src/Plugin.antt =====
-- pkg/plugin/plugin.go: manifests, inputs and outputs, and the registry in memory. A plugin is a
-- parameter; its execution changes the world.
pub mod Registered
mod Examples
use bzy_personal.Prelude.{ℕ, ◌-◌, String, List, [], ◌∷◌, map, Option, none, some}
use bzy_personal.Prelude.Map.{Map, lookup, insert, delete, values}
use bzy_personal.Errors.{Error, plugin_not_found}
use bzy_personal.Runtime.{Env, Json}

-- `Capability` is an open string type in Go; these are its constants.
pub data Capability : Type 0 where
  tool source action transform trigger : Capability
  other : String → Capability

pub record Manifest : Type 0 where
  pub id : String
  pub name : String
  pub version : String
  pub description : String
  pub author : String
  pub capabilities : List Capability
  pub schema : Json

pub record Input : Type 0 where
  pub params : Json
  pub context : Json

pub record Output : Type 0 where
  pub data_json : Json
  pub text : String
  pub error : String
  pub latency : ℕ

-- What `Execute` returns: an output or nil, and an error or nil.
abbrev pub Executed : Type 0 → Type 0
Executed W = Option Output × Option Error × W

pub record Plugin (W : Type 0) : Type 0 where
  pub manifest : Manifest
  pub execute : Input → W → Executed W

-- `MemoryRegistry`
abbrev pub Registry : Type 0 → Type 0
Registry W = Map (Plugin W)

module _ {W : Type 0} where
  unfoldable pub new_registry : Registry W
  new_registry = []

  unfoldable pub register : Plugin W → Registry W → Registry W
  register p r = insert p.manifest.id p r

  unfoldable pub unregister : String → Registry W → Registry W
  unregister id r = delete id r

  unfoldable pub get : String → Registry W → Option (Plugin W)
  get id r = lookup id r

  unfoldable pub list : Registry W → List Manifest
  list r = map (λ p. p.manifest) (values r)

module _ {W : Type 0} (env : Env W) where
  -- An output that is there gets its latency, also beside an error.
  timed : ℕ → Executed W → Executed W
  timed start (none, e, w) = (none, e, w)
  timed start (some out, e, w) =
      let (stop, w') = env.now w in (some (record out { latency = stop - start }), e, w')

  pub execute_found : Option (Plugin W) → String → Input → W → Executed W
  unfolding timed
  execute_found none id input w = (none, some (plugin_not_found id), w)
  execute_found (some p) id input w =
      let (start, w1) = env.now w in timed start (p.execute input w1)

  -- `Execute`
  unfoldable pub execute : Registry W → String → Input → W → Executed W
  unfolding execute_found
  execute r id input w = execute_found (lookup id r) id input w
