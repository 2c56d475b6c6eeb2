-- ===== src/Client/Api/Agents.antt =====
-- pkg/client/agents.go. The codecs of the bodies are parameters.
use bzy_personal.Prelude.{
  ℕ, Bool, false, ◌||◌, String, List, [], Option, none, some, str_eq, if◌then◌else◌,
}
use bzy_personal.Prelude.Texts.{◌<>◌}
use bzy_personal.Errors.{Error, Result}
use bzy_personal.Client.Sse.{Reader, iter}
use bzy_personal.Client.Api.{Link, Reads, on_decoded, call, wrapped, field, open_stream}

pub record AgentDef : Type 0 where
  pub id : String
  pub name : String
  pub description : String
  pub tool_ids : List String
  pub max_steps : ℕ

pub record RunAgentRequest : Type 0 where
  pub session_id : String
  pub input : String

pub record RunAgentResponse : Type 0 where
  pub agent_run_id : String
  pub answer : String
  pub steps : ℕ
  pub latency : ℕ

pub record AgentChunk : Type 0 where
  pub delta : String
  pub is_done : Bool
  pub step_type : String

abbrev pub no_chunk : AgentChunk
no_chunk = record { delta = ""; is_done = false; step_type = "" }

-- The struct in `List`.
pub record AgentList : Type 0 where
  pub agents : List AgentDef

pub record Codec : Type 0 where
  pub marshal : RunAgentRequest → Result String
  pub read_agents : Reads AgentList
  pub read_run : Reads RunAgentResponse
  pub read_chunk : Reads AgentChunk

module _ (codec : Codec) where
  -- `AgentStream.Steps`
  unfoldable pub stream_steps :
      {W : Type 0}
      → (W → Option Error)
      → (AgentChunk → W → Option Error × W)
      → Reader
      → W
      → Option (Option Error × W)
  stream_steps ended fn r w = iter ended (λ e v. on_decoded codec.read_chunk no_chunk fn e v) r w

  -- The function that `Text` passes, on the text so far and the rest of the world.
  add_chunk : {W : Type 0} → AgentChunk → String × W → Option Error × (String × W)
  add_chunk c (full, w) =
      if str_eq c.step_type "answer" || str_eq c.step_type ""
      then (none, (full <> c.delta, w))
      else (none, (full, w))

  -- `AgentStream.Text`: the text is there with an error too.
  unfoldable pub stream_text :
      {W : Type 0} → (W → Option Error) → Reader → W → Option (Option Error × (String × W))
  unfolding add_chunk
  stream_text ended r w =
      iter (λ (full, v). ended v)
        (λ e v. on_decoded codec.read_chunk no_chunk (λ c v'. add_chunk c v') e v) r ("", w)

abbrev pub agents_path : String
agents_path = "/api/v1/agents/"

abbrev pub agent_run_path : String → String
agent_run_path id = "/api/v1/agents/" <> (id <> "/run")

abbrev pub agent_stream_path : String → String
agent_stream_path id = "/api/v1/agents/" <> (id <> "/stream")

module _ {W : Type 0} (l : Link W) (codec : Codec) where
  -- `List`
  unfoldable pub list : W → Option (Result (List AgentDef) × W)
  list w =
      field (λ (r : AgentList). r.agents)
        (wrapped "agents list: "
          (call l "GET" agents_path none codec.read_agents (record { agents = [] }) w))

  -- `Run`
  unfoldable pub run : String → RunAgentRequest → W → Option (Result RunAgentResponse × W)
  run id req w = wrapped "agent run: " (
      call l "POST" (agent_run_path id) (some (codec.marshal req)) codec.read_run
        (record { agent_run_id = ""; answer = ""; steps = 0; latency = 0 }) w)

  -- `RunStream`
  unfoldable pub run_stream : String → RunAgentRequest → W → Result Reader × W
  run_stream id req w =
      open_stream l "agent stream: " "POST" (agent_stream_path id) (some (codec.marshal req)) w

  -- `Ask`
  unfoldable pub ask : String → String → W → Option (Result String × W)
  unfolding run
  ask id question w =
      field (λ (r : RunAgentResponse). r.answer)
        (run id (record { session_id = ""; input = question }) w)
