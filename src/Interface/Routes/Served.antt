-- ===== src/Interface/Routes/Served.antt =====
-- The calls of pkg/client against the routes of the gateway.

use mathlib.Core.Bool.{false≢true}
use bzy_personal.Prelude.{◌≡◌, refl, Bool, true, false, String, some}
use bzy_personal.Client.Http.{Client}
use bzy_personal.Client.Http.Account
use bzy_personal.Client.Api.Chat
use bzy_personal.Client.Api.Memory
use bzy_personal.Client.Api.Documents
use bzy_personal.Client.Api.Agents
use bzy_personal.Client.Api.Tasks
use bzy_personal.Client.Api.Workflows
use bzy_personal.Client.Api.Chat.{completions_path, chat_stream_path, sessions_path, session_path}
use bzy_personal.Client.Api.Memory.{memories_path, memory_path}
use bzy_personal.Client.Api.Documents.{documents_path, query_path, document_path}
use bzy_personal.Client.Api.Agents.{agents_path, agent_run_path}
use bzy_personal.Client.Api.Tasks.{tasks_path, task_path, logs_path}
use bzy_personal.Client.Api.Workflows.{workflows_path, workflow_run_path, run_path}
use bzy_personal.Interface.Routes
use bzy_personal.Interface.Routes.{
  Handler, login, refresh, chat_completion, chat_stream, store_memory, delete_memory,
  ingest_document, rag_query, delete_document, list_agents, run_agent, enqueue_task, list_tasks,
  get_task, cancel_task, create_workflow, run_workflow, get_workflow_run, stub_reply, todo_reply,
}
use bzy_personal.Interface.Routes.Requests.{
  ApiCall, auth_login, auth_refresh, chat_complete, chat_open, create_session, get_session,
  memory_store, memory_forget, document_ingest, document_query, document_delete, agent_list,
  agent_run, task_enqueue, task_list, task_get, task_cancel, task_logs, workflow_create,
  workflow_run, run_get,
}
use bzy_personal.Interface.Routes.Paths.{Segment}

abbrev method_of : ApiCall → String
method_of (get_session id) = "GET"
method_of (memory_forget id) = "DELETE"
method_of (document_delete id) = "DELETE"
method_of agent_list = "GET"
method_of (chat_open _) = "GET"
method_of task_list = "GET"
method_of (task_get id) = "GET"
method_of (task_logs id) = "GET"
method_of (run_get id) = "GET"
method_of (task_cancel id) = "DELETE"
method_of _ = "POST"

abbrev path_of : ApiCall → String
path_of (auth_login _ _) = "/api/v1/auth/login"
path_of auth_refresh = "/api/v1/auth/refresh"
path_of (chat_complete _) = completions_path
path_of (chat_open _) = chat_stream_path
path_of (create_session _) = sessions_path
path_of (get_session id) = session_path id
path_of (memory_store _) = memories_path
path_of (memory_forget id) = memory_path id
path_of (document_ingest _) = documents_path
path_of (document_query _) = query_path
path_of (document_delete id) = document_path id
path_of agent_list = agents_path
path_of (agent_run id req) = agent_run_path id
path_of (task_enqueue _) = tasks_path
path_of task_list = tasks_path
path_of (task_get id) = task_path id
path_of (task_cancel id) = task_path id
path_of (task_logs id) = logs_path id
path_of (workflow_create _) = workflows_path
path_of (workflow_run id req) = workflow_run_path id
path_of (run_get id) = run_path id

-- The handler that is meant, and whether it is behind `RequireAuth`.
abbrev pub meant : ApiCall → Handler × Bool
meant (auth_login _ _) = (login, false)
meant auth_refresh = (refresh, false)
meant (chat_complete _) = (chat_completion, true)
meant (chat_open _) = (chat_stream, true)
meant (create_session _) = (Routes.create_session, true)
meant (get_session id) = (Routes.get_session, true)
meant (memory_store _) = (store_memory, true)
meant (memory_forget id) = (delete_memory, true)
meant (document_ingest _) = (ingest_document, true)
meant (document_query _) = (rag_query, true)
meant (document_delete id) = (delete_document, true)
meant agent_list = (list_agents, true)
meant (agent_run id req) = (run_agent, true)
meant (task_enqueue _) = (enqueue_task, true)
meant task_list = (list_tasks, true)
meant (task_get id) = (get_task, true)
meant (task_cancel id) = (cancel_task, true)
meant (task_logs id) = (Routes.task_logs, true)
meant (workflow_create _) = (create_workflow, true)
meant (workflow_run id req) = (run_workflow, true)
meant (run_get id) = (get_workflow_run, true)

-- An identifier in a path is one segment of it.
abbrev pub WellNamed : ApiCall → Type 0
WellNamed (get_session id) = Segment id
WellNamed (memory_forget id) = Segment id
WellNamed (document_delete id) = Segment id
WellNamed (agent_run id req) = Segment id
WellNamed (task_get id) = Segment id
WellNamed (task_cancel id) = Segment id
WellNamed (task_logs id) = Segment id
WellNamed (workflow_run id req) = Segment id
WellNamed (run_get id) = Segment id
WellNamed _ = Unit

-- Behind the routes every call of the client but login and refresh meets a stub, which answers 501.
stub_reply-meant : (c : ApiCall) → (meant c).1 ≡ true → stub_reply (meant c).0 ≡ some todo_reply
unfolding stub_reply
stub_reply-meant (auth_login _ _) h = absurd (false≢true h)
stub_reply-meant auth_refresh h = absurd (false≢true h)
stub_reply-meant _ h = refl
