-- ===== src/Brain/Samples.antt =====
-- A clock that counts its readings, and small agents, plans and workflows, for the examples.
use bzy_personal.Prelude.{ℕ, ◌+◌, [], some, none}
use bzy_personal.Errors.{ok, err, text}
use bzy_personal.Runtime.{Env}
use bzy_personal.Brain.Providers.{Provider, Message, Role}
use bzy_personal.Brain.Agents.{AgentStatus, LiveAgent, general}

abbrev pub clock : Env ℕ
clock = record { now = λ w. (w, w + 1); fresh = λ w. ("fresh", w) }

abbrev pub hello : Message
hello = record { role = Role.assistant; content = "hello"; tool_calls = []; tool_call_id = "" }

-- Answers every chat with a greeting, and counts the chats as readings of the clock.
abbrev pub greeter : Provider ℕ
greeter = record {
  id = "greeter";
  chat = λ req w. (
    ok (record {
      id = "r1";
      model = "m";
      message = hello;
      usage = record { prompt_tokens = 1; completion_tokens = 1; total_tokens = 2 };
      finish = "stop";
    }),
    w + 1,
  );
  embed = λ ts w. (err (text "no embeddings"), w);
}

abbrev pub greeting_agent : LiveAgent ℕ
greeting_agent = record {
  def = general;
  state = record {
    id = "a1";
    def_id = "general";
    session_id = "s1";
    status = AgentStatus.idle;
    messages = [];
    step_count = 0;
    metadata = "";
    spawned_at = 0;
    finished_at = none;
  };
  provider = some greeter;
  tools = [];
}
