-- ===== src/Interface/Routes/Requests.antt =====
-- The requests that the functions of pkg/client send, and the routes of the gateway that these fit.
use bzy_personal.Prelude.{Bool, false, true, String, List, [], ◌≢◌, none, some, map}
use bzy_personal.Errors.{Result, ok, err}
use bzy_personal.Client.Http.{Client}
use bzy_personal.Client.Http.Account
use bzy_personal.Client.Http.Recorded.{Log, recording, IsEncoded}
use bzy_personal.Client.Api.Recorded.{recorder, log_of}
use bzy_personal.Client.Api.Chat
use bzy_personal.Client.Api.Memory
use bzy_personal.Client.Api.Documents
use bzy_personal.Client.Api.Agents
use bzy_personal.Client.Api.Tasks
use bzy_personal.Client.Api.Workflows
use bzy_personal.Interface.Routes.{Handler, candidates}

-- A call of a function of a sub-client, by its name there, with its arguments.
pub data ApiCall : Type 0 where
  auth_login : String → String → ApiCall
  auth_refresh : ApiCall
  chat_complete chat_open : Chat.ChatRequest → ApiCall
  create_session get_session : String → ApiCall
  memory_store : Memory.StoreMemoryRequest → ApiCall
  memory_forget : String → ApiCall
  document_ingest : Documents.IngestRequest → ApiCall
  document_query : Documents.RagQueryRequest → ApiCall
  document_delete : String → ApiCall
  agent_list : ApiCall
  agent_run : String → Agents.RunAgentRequest → ApiCall
  task_enqueue : Tasks.EnqueueRequest → ApiCall
  task_list : ApiCall
  task_get task_cancel task_logs : String → ApiCall
  workflow_create : Workflows.CreateWorkflowRequest → ApiCall
  workflow_run : String → Result String → ApiCall
  run_get : String → ApiCall

pub record Codecs (Float : Type 0) : Type 0 where
  pub account : Account.Codec
  pub chat : Chat.Codec
  pub memory : Memory.Codec Float
  pub documents : Documents.Codec
  pub agents : Agents.Codec
  pub tasks : Tasks.Codec
  pub workflows : Workflows.Codec

module _ {Float : Type 0} (codecs : Codecs Float) (c : Client) where
  -- What the function sends. `List` has no filter here, and `Logs` does not follow.
  unfoldable pub requests_of : ApiCall → Log
  requests_of (auth_login email password) =
      log_of
        (elim (Account.login recording codecs.account (λ n. 0) (λ d w. (none, w)) email password c
          []) [ none ↦ none | some (r, c', w) ↦ some (r, w) ])
  requests_of auth_refresh =
      log_of (elim (Account.refresh recording codecs.account (λ n. 0) (λ d w. (none, w)) c []) [
        | none ↦ none
        | some (r, c', w) ↦ some (r, w)
      ])
  requests_of (chat_complete req) = log_of (Chat.complete (recorder c) codecs.chat req [])
  requests_of (chat_open req) = (Chat.stream (recorder c) codecs.chat req []).1
  requests_of (create_session title) =
      log_of (Chat.create_session (recorder c) codecs.chat title [])
  requests_of (get_session id) = log_of (Chat.get_session (recorder c) codecs.chat id [])
  requests_of (memory_store req) = log_of (Memory.store (recorder c) codecs.memory req [])
  requests_of (memory_forget id) = log_of (Memory.forget (recorder c) codecs.memory id [])
  requests_of (document_ingest req) = log_of (Documents.ingest (recorder c) codecs.documents req [])
  requests_of (document_query req) = log_of (Documents.query (recorder c) codecs.documents req [])
  requests_of (document_delete id) = log_of (Documents.delete (recorder c) codecs.documents id [])
  requests_of agent_list = log_of (Agents.list (recorder c) codecs.agents [])
  requests_of (agent_run id req) = log_of (Agents.run (recorder c) codecs.agents id req [])
  requests_of (task_enqueue req) = log_of (Tasks.enqueue (recorder c) codecs.tasks req [])
  requests_of task_list = log_of (Tasks.list (recorder c) codecs.tasks "" 0 [])
  requests_of (task_get id) = log_of (Tasks.get (recorder c) codecs.tasks id [])
  requests_of (task_cancel id) = log_of (Tasks.cancel (recorder c) codecs.tasks id [])
  requests_of (task_logs id) = (Tasks.logs (recorder c) codecs.tasks id false []).1
  requests_of (workflow_create req) = log_of (Workflows.create (recorder c) codecs.workflows req [])
  requests_of (workflow_run id raw) = log_of (Workflows.run (recorder c) codecs.workflows id raw [])
  requests_of (run_get id) = log_of (Workflows.get_run (recorder c) codecs.workflows id [])

  -- The bodies of the call are encoded without an error, and `Refresh` has a token.
  abbrev pub IsSent : ApiCall → Type 0
  IsSent (auth_login email password) =
      IsEncoded
        (some (codecs.account.marshal_login (record { email = email; password = password })))
  IsSent auth_refresh =
      (c.refresh_token ≢ "")
      × IsEncoded
          (some (codecs.account.marshal_refresh (record { refresh_token = c.refresh_token })))
  IsSent (chat_complete req) =
      IsEncoded (some (codecs.chat.marshal_chat (record req { stream = false })))
  IsSent (chat_open req) =
      IsEncoded (some (codecs.chat.marshal_chat (record req { stream = true })))
  IsSent (create_session title) =
      IsEncoded (some (codecs.chat.marshal_session (record { title = title })))
  IsSent (memory_store req) = IsEncoded (some (codecs.memory.marshal req))
  IsSent (document_ingest req) = IsEncoded (some (codecs.documents.marshal_ingest req))
  IsSent (document_query req) = IsEncoded (some (codecs.documents.marshal_query req))
  IsSent (agent_run id req) = IsEncoded (some (codecs.agents.marshal req))
  IsSent (task_enqueue req) = IsEncoded (some (codecs.tasks.marshal req))
  IsSent (workflow_create req) = IsEncoded (some (codecs.workflows.marshal_create req))
  IsSent (workflow_run id raw) = Sends raw
    where
      Sends : Result String → Type 0
      Sends (err e) = ⊥
      Sends (ok input) = IsEncoded (some (codecs.workflows.marshal_run (record { input = input })))
  IsSent _ = Unit

-- The entries of the gateway's table that each request fits.
unfoldable pub fitting_routes : Log → List (List (Handler × Bool))
fitting_routes log = map (λ (method, path). candidates method path) log
