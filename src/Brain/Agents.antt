-- ===== src/Brain/Agents.antt =====
-- apps/bzy-brain/internal/agents/agent.go: agent definitions, the registry, and a live agent.
pub mod Run
use bzy_personal.Prelude.{
  ℕ, ◌≡◌, Bool, true, false, String, List, [], ◌∷◌, Option, none, some, str_eq, if◌then◌else◌,
}
use bzy_personal.Prelude.Map.{Map, lookup, insert, values}
use bzy_personal.Errors.{Error, Result, ok, err, agent_not_found}
use bzy_personal.Runtime.{Env, Json}
use bzy_personal.Brain.Providers
use bzy_personal.Brain.Providers.{Message, Provider}
use bzy_personal.Brain.Tools
use bzy_personal.Brain.Tools.{Tool}

pub data AgentStatus : Type 0 where
  idle running waiting finished failed : AgentStatus

-- The temperature is in hundredths. `max_steps` is taken to be non-negative.
pub record AgentDef : Type 0 where
  pub id : String
  pub name : String
  pub description : String
  pub system_prompt : String
  pub model : String
  pub tool_ids : List String
  pub max_steps : ℕ
  pub temperature : ℕ

pub record AgentState : Type 0 where
  pub id : String
  pub def_id : String
  pub session_id : String
  pub status : AgentStatus
  pub messages : List Message
  pub step_count : ℕ
  pub metadata : Json
  pub spawned_at : ℕ
  pub finished_at : Option ℕ

pub record RunResult : Type 0 where
  pub agent_id : String
  pub answer : String
  pub steps : ℕ
  pub latency : ℕ

-- `provider` is `none` for the nil interface.
pub record LiveAgent (W : Type 0) : Type 0 where
  pub def : AgentDef
  pub state : AgentState
  pub provider : Option (Provider W)
  pub tools : List (Tool W)

pub record Registry (W : Type 0) : Type 0 where
  pub defs : Map AgentDef
  pub providers : Providers.Registry W
  pub tools : Tools.Registry W

-- The two definitions that `registerBuiltins` adds.
abbrev pub general : AgentDef
general = record {
  id = "general";
  name = "General Assistant";
  description = "A general-purpose AI assistant with access to core tools";
  system_prompt = "You are a helpful personal AI assistant. Be concise, accurate, and proactive.";
  model = "";
  tool_ids = [];
  max_steps = 15;
  temperature = 70;
}

abbrev pub researcher : AgentDef
researcher = record {
  id = "researcher";
  name = "Research Agent";
  description = "Deep research agent that searches, reads, and synthesizes information";
  system_prompt =
      "You are a research specialist. Gather comprehensive information and synthesize clear summaries.";
  model = "";
  tool_ids = [];
  max_steps = 20;
  temperature = 20;
}

module _ {W : Type 0} (env : Env W) where
  -- A definition without an identifier gets a fresh one.
  unfoldable pub register : AgentDef → Registry W → W → Registry W × W
  register def r w =
      let (fresh, w') = env.fresh w in
      if str_eq def.id ""
      then (record r { defs = insert fresh (record def { id = fresh }) r.defs }, w')
      else (record r { defs = insert def.id def r.defs }, w)

  unfoldable pub new_registry : Providers.Registry W → Tools.Registry W → W → Registry W × W
  unfolding register
  new_registry providers tools w =
      let r : Registry W = record { defs = []; providers = providers; tools = tools } in
      let (r1, w1) = register general r w in register researcher r1 w1

module _ {W : Type 0} where
  unfoldable pub get : String → Registry W → Option AgentDef
  get id r = lookup id r.defs

  unfoldable pub list : Registry W → List AgentDef
  list r = values r.defs

  -- The tools of the identifiers that the tool registry knows, in the order of the identifiers.
  unfoldable pub known_tools : Tools.Registry W → List String → List (Tool W)
  known_tools reg [] = []
  known_tools reg (tid ∷ rest) =
      let others = known_tools reg rest in
      elim (Tools.get tid reg) [ none ↦ others | some t ↦ t ∷ others ]

module _ {W : Type 0} (env : Env W) where
  spawn_found : Option AgentDef → Registry W → String → String → W → Result (LiveAgent W) × W
  spawn_found none r def_id session_id w = (err (agent_not_found def_id), w)
  spawn_found (some def) r def_id session_id w =
      let (id, w1) = env.fresh w in
      let (at, w2) = env.now w1 in
      (
        ok (record {
          def = def;
          state = record {
            id = id;
            def_id = def_id;
            session_id = session_id;
            status = idle;
            messages = [];
            step_count = 0;
            metadata = "";
            spawned_at = at;
            finished_at = none;
          };
          provider = Providers.default r.providers;
          tools = known_tools r.tools def.tool_ids;
        }),
        w2,
      )

  unfoldable pub spawn : Registry W → String → String → W → Result (LiveAgent W) × W
  unfolding spawn_found known_tools
  spawn r def_id session_id w = spawn_found (lookup def_id r.defs) r def_id session_id w
