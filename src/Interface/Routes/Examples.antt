-- ===== src/Interface/Routes/Examples.antt =====
-- Requests of the client at the table of the gateway, and the roles of a user.
use bzy_personal.Prelude.{◌≡◌, refl, ℕ, true, false, [], ◌∷◌, ◌==◌, ne_of_str_eq}
use bzy_personal.Prelude.Ints.{pos}
use bzy_personal.Prelude.Texts.{split_at}
use bzy_personal.Prelude.Texts.Laws.{Lacks}
use bzy_personal.Errors.{ok}
use bzy_personal.Client.Http.{Client, new_client, default_config}
use bzy_personal.Client.Api.Recorded.{recorder, log_of}
use bzy_personal.Client.Api.Agents
use bzy_personal.Client.Api.Memory
use bzy_personal.Client.Api.Tasks
use bzy_personal.Interface.Login.{split_pg_array}
use bzy_personal.Interface.Login.Roles.{drop_empty_end, split_pg_array-split_at}
use bzy_personal.Interface.Routes.{get_task}
use bzy_personal.Interface.Routes.Requests.{Codecs, fitting_routes}
use bzy_personal.Interface.Routes.Paths.{Segment}
use bzy_personal.Interface.Routes.Missed.{fitting_routes-missed}

t1-Segment : Segment "t1"
t1-Segment = ((refl, (refl, tt)), ne_of_str_eq "t1" "" refl)

query-Lacks : Lacks (λ c. c == 47) "q=a"
query-Lacks = (refl, (refl, (refl, tt)))

abbrev codecs : Codecs (Unit {0})
codecs = record {
  account = record {
    marshal_login = λ r. ok "{}";
    marshal_refresh = λ r. ok "{}";
    decode_pair = λ s p. (ok tt, p);
  };
  chat = record {
    marshal_chat = λ r. ok "{}";
    marshal_session = λ r. ok "{}";
    read_response = λ s r. (ok tt, r);
    read_session = λ s r. (ok tt, r);
    read_delta = λ s r. (ok tt, r);
  };
  memory = record {
    marshal = λ r. ok "{}";
    read_stored = λ s r. (ok tt, r);
    read_recalled = λ s r. (ok tt, r);
    encode_query = λ q. "q=a";
    is_positive = λ x. false;
    format = λ x. "";
  };
  documents = record {
    marshal_ingest = λ r. ok "{}";
    marshal_query = λ r. ok "{}";
    read_ingested = λ s r. (ok tt, r);
    read_answer = λ s r. (ok tt, r);
  };
  agents = record {
    marshal = λ r. ok "{}";
    read_agents = λ s r. (ok tt, r);
    read_run = λ s r. (ok tt, r);
    read_chunk = λ s r. (ok tt, r);
  };
  tasks = record {
    marshal = λ r. ok "{}";
    read_enqueued = λ s r. (ok tt, r);
    read_task = λ s r. (ok tt, r);
    read_tasks = λ s r. (ok tt, r);
    read_entry = λ s r. (ok tt, r);
    encode_query = λ q. "q=a";
  };
  workflows = record {
    marshal_create = λ r. ok "{}";
    marshal_run = λ r. ok "{}";
    read_def = λ s r. (ok tt, r);
    read_run = λ s r. (ok tt, r);
  };
}

abbrev new : Client
new = new_client "http://localhost:8080" []

three_tries : (tries : ℕ) × (new.cfg.max_retries ≡ pos tries)
unfolding new_client default_config
three_tries = (3, refl)

abbrev question : Agents.RunAgentRequest
question = record { session_id = "s1"; input = "why" }

fitting_routes-missed_example :
    (fitting_routes (Agents.run_stream (recorder new) codecs.agents "t1" question []).1 ≡ [] ∷ [])
    × (fitting_routes (log_of (Memory.recall (recorder new) codecs.memory "a" 5 tt [])) ≡ [] ∷ [])
    × (fitting_routes (Tasks.logs (recorder new) codecs.tasks "t1" true []).1 ≡ [] ∷ [])
    × (fitting_routes (log_of (Tasks.list (recorder new) codecs.tasks "failed" 10 []))
        ≡ ((get_task, true) ∷ []) ∷ [])
fitting_routes-missed_example =
    fitting_routes-missed codecs new three_tries "t1" "failed" "a" 10 5 tt question t1-Segment
      (ne_of_str_eq "failed" "" refl) tt (λ q. query-Lacks) (λ q. query-Lacks)

split_pg_array-split_at_example :
    split_pg_array "admin,user" ≡ drop_empty_end (split_at 44 "admin,user")
split_pg_array-split_at_example = split_pg_array-split_at "admin,user"
