-- ===== src/Interface/Routes.antt =====
-- `RegisterRoutes` of apps/bzy-interface/internal/httpserver/server.go as a table. The router is gin's: what
-- is modelled is which entries a request fits.
pub mod Paths
pub mod Requests
pub mod Served
pub mod Missed
mod Examples
use bzy_personal.Prelude.{
  Bool, true, false, ◌&&◌, ◌++◌, String, List, [], ◌∷◌, Option, none, some, str_eq, if◌then◌else◌,
}
use bzy_personal.Interface.Login.{Reply, refusal}
use bzy_personal.Prelude.Texts.{has_prefix, split_at}

-- The handlers, by their functions.
pub data Handler : Type 0 where
  liveness readiness prometheus web_socket : Handler
  login refresh : Handler
  chat_completion chat_stream create_session get_session get_messages : Handler
  store_memory recall_memory list_memory delete_memory : Handler
  ingest_document rag_query rag_query_stream delete_document : Handler
  list_agents run_agent run_agent_stream : Handler
  enqueue_task list_tasks get_task task_logs cancel_task : Handler
  create_workflow run_workflow get_workflow_run : Handler

-- `todo`
unfoldable pub todo_reply : Reply
todo_reply = refusal 501 "NOT_IMPLEMENTED" "coming soon"

-- What the handlers that are stubs answer to every request; `none` is a handler with code of its own.
unfoldable pub stub_reply : Handler → Option Reply
unfolding todo_reply
stub_reply liveness = none
stub_reply readiness = none
stub_reply prometheus = none
stub_reply web_socket = none
stub_reply login = none
stub_reply refresh = none
stub_reply _ = some todo_reply

-- A pattern is a path with named parameters; behind it is whether `RequireAuth` goes first.
pub record Route : Type 0 where
  pub method : String
  pub pattern : String
  pub is_protected : Bool
  pub handler : Handler

open_route : String → String → Handler → Route
open_route method pattern handler = record {
  method = method;
  pattern = pattern;
  is_protected = false;
  handler = handler;
}

guarded_route : String → String → Handler → Route
guarded_route method pattern handler = record {
  method = method;
  pattern = pattern;
  is_protected = true;
  handler = handler;
}

health_routes : List Route
unfolding open_route
health_routes =
    open_route "GET" "/health/live" liveness
    ∷ open_route "GET" "/health/ready" readiness
    ∷ open_route "GET" "/metrics" prometheus
    ∷ []

auth_routes : List Route
unfolding open_route
auth_routes =
    open_route "POST" "/api/v1/auth/login" login
    ∷ open_route "POST" "/api/v1/auth/refresh" refresh
    ∷ []

chat_routes : List Route
unfolding guarded_route
chat_routes =
    guarded_route "POST" "/api/v1/chat/completions" chat_completion
    ∷ guarded_route "GET" "/api/v1/chat/stream" chat_stream
    ∷ guarded_route "POST" "/api/v1/chat/sessions" create_session
    ∷ guarded_route "GET" "/api/v1/chat/sessions/:id" get_session
    ∷ guarded_route "GET" "/api/v1/chat/sessions/:id/messages" get_messages
    ∷ []

memory_routes : List Route
unfolding guarded_route
memory_routes =
    guarded_route "POST" "/api/v1/memory/" store_memory
    ∷ guarded_route "GET" "/api/v1/memory/recall" recall_memory
    ∷ guarded_route "GET" "/api/v1/memory/" list_memory
    ∷ guarded_route "DELETE" "/api/v1/memory/:id" delete_memory
    ∷ []

document_routes : List Route
unfolding guarded_route
document_routes =
    guarded_route "POST" "/api/v1/documents/" ingest_document
    ∷ guarded_route "POST" "/api/v1/documents/query" rag_query
    ∷ guarded_route "GET" "/api/v1/documents/query/stream" rag_query_stream
    ∷ guarded_route "DELETE" "/api/v1/documents/:id" delete_document
    ∷ []

agent_routes : List Route
unfolding guarded_route
agent_routes =
    guarded_route "GET" "/api/v1/agents/" list_agents
    ∷ guarded_route "POST" "/api/v1/agents/:id/run" run_agent
    ∷ guarded_route "GET" "/api/v1/agents/:id/stream" run_agent_stream
    ∷ []

task_routes : List Route
unfolding guarded_route
task_routes =
    guarded_route "POST" "/api/v1/tasks/" enqueue_task
    ∷ guarded_route "GET" "/api/v1/tasks/" list_tasks
    ∷ guarded_route "GET" "/api/v1/tasks/:id" get_task
    ∷ guarded_route "GET" "/api/v1/tasks/:id/logs" task_logs
    ∷ guarded_route "DELETE" "/api/v1/tasks/:id" cancel_task
    ∷ []

workflow_routes : List Route
unfolding guarded_route
workflow_routes =
    guarded_route "POST" "/api/v1/workflows/" create_workflow
    ∷ guarded_route "POST" "/api/v1/workflows/:id/run" run_workflow
    ∷ guarded_route "GET" "/api/v1/workflows/runs/:run_id" get_workflow_run
    ∷ []

web_socket_routes : List Route
unfolding guarded_route
web_socket_routes = guarded_route "GET" "/ws" web_socket ∷ []

-- `RegisterRoutes`
unfoldable pub routes : List (List Route)
unfolding health_routes auth_routes chat_routes memory_routes document_routes agent_routes
    task_routes workflow_routes web_socket_routes
routes =
    health_routes ∷ auth_routes ∷ chat_routes ∷ memory_routes ∷ document_routes ∷ agent_routes
    ∷ task_routes ∷ workflow_routes ∷ web_socket_routes ∷ []

-- A segment of a pattern fits one of a path: a parameter fits every text that is not empty.
unfoldable pub segment_fits : String → String → Bool
segment_fits pattern s =
    if has_prefix ":" pattern then (if str_eq s "" then false else true) else str_eq s pattern

unfoldable pub segments_fit : List String → List String → Bool
unfolding segment_fits
segments_fit [] [] = true
segments_fit [] (s ∷ ss) = false
segments_fit (p ∷ ps) [] = false
segments_fit (p ∷ ps) (s ∷ ss) = segment_fits p s && segments_fit ps ss

unfoldable pub fits : String → List String → Route → Bool
unfolding segments_fit
fits method path r = str_eq method r.method && segments_fit (split_at 47 r.pattern) path

-- The entries of a table that fit, in order, as what the router can choose from.
unfoldable pub fitting : String → List String → List Route → List (Handler × Bool)
unfolding fits
fitting method path [] = []
fitting method path (r ∷ rs) =
    let rest = fitting method path rs in
    if fits method path r then (r.handler, r.is_protected) ∷ rest else rest

-- Over all groups.
unfoldable pub candidates_in : String → List String → List (List Route) → List (Handler × Bool)
unfolding fitting
candidates_in method path [] = []
candidates_in method path (g ∷ gs) = fitting method path g ++ candidates_in method path gs

unfoldable pub candidates : String → String → List (Handler × Bool)
unfolding candidates_in routes
candidates method path = candidates_in method (split_at 47 path) routes
