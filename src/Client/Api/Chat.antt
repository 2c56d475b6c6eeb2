-- ===== src/Client/Api/Chat.antt =====
-- pkg/client/chat.go. The codecs of the bodies are parameters.
use bzy_personal.Prelude.{ℕ, Bool, true, false, String, List, [], ◌∷◌, Option, none, some}
use bzy_personal.Prelude.Texts.{◌<>◌}
use bzy_personal.Errors.{Error, Result}
use bzy_personal.Runtime.{Json}
use bzy_personal.Client.Sse.{Reader, iter}
use bzy_personal.Client.Api.{Link, Reads, on_decoded, call, wrapped, field, open_stream}

abbrev pub role_user : String
role_user = "user"

pub record Message : Type 0 where
  pub role : String
  pub content : String

-- A number that is not an integer is its JSON text.
pub record ChatRequest : Type 0 where
  pub session_id : String
  pub messages : List Message
  pub model : String
  pub temperature : Json
  pub max_tokens : ℕ
  pub stream : Bool

pub record Usage : Type 0 where
  pub prompt_tokens : ℕ
  pub completion_tokens : ℕ
  pub total_tokens : ℕ

pub record ChatResponse : Type 0 where
  pub id : String
  pub model : String
  pub message : Message
  pub usage : Usage
  pub finish : String

pub record ChatDelta : Type 0 where
  pub delta : String
  pub is_done : Bool
  pub finish : String

pub record Session : Type 0 where
  pub id : String
  pub user_id : String
  pub title : String
  pub summary : String
  pub messages : List Message
  pub created_at : ℕ
  pub updated_at : ℕ

pub record CreateSessionRequest : Type 0 where
  pub title : String

abbrev pub no_delta : ChatDelta
no_delta = record { delta = ""; is_done = false; finish = "" }

abbrev pub no_response : ChatResponse
no_response = record {
  id = "";
  model = "";
  message = record { role = ""; content = "" };
  usage = record { prompt_tokens = 0; completion_tokens = 0; total_tokens = 0 };
  finish = "";
}

abbrev pub no_session : Session
no_session = record {
  id = "";
  user_id = "";
  title = "";
  summary = "";
  messages = [];
  created_at = 0;
  updated_at = 0;
}

pub record Codec : Type 0 where
  pub marshal_chat : ChatRequest → Result String
  pub marshal_session : CreateSessionRequest → Result String
  pub read_response : Reads ChatResponse
  pub read_session : Reads Session
  pub read_delta : Reads ChatDelta

module _ (codec : Codec) where
  -- `ChatStream.Iter`
  unfoldable pub stream_iter :
      {W : Type 0}
      → (W → Option Error)
      → (ChatDelta → W → Option Error × W)
      → Reader
      → W
      → Option (Option Error × W)
  stream_iter ended fn r w = iter ended (λ e v. on_decoded codec.read_delta no_delta fn e v) r w

  -- The function that `Text` passes, on the text so far and the rest of the world.
  unfoldable pub add_delta : {W : Type 0} → ChatDelta → String × W → Option Error × (String × W)
  add_delta d (full, w) = (none, (full <> d.delta, w))

  -- `ChatStream.Text`: the text is there with an error too.
  unfoldable pub stream_text :
      {W : Type 0} → (W → Option Error) → Reader → W → Option (Option Error × (String × W))
  unfolding stream_iter add_delta
  stream_text ended r w = stream_iter (λ (full, v). ended v) (λ d v. add_delta d v) r ("", w)

abbrev pub completions_path : String
completions_path = "/api/v1/chat/completions"

abbrev pub chat_stream_path : String
chat_stream_path = "/api/v1/chat/stream"

abbrev pub sessions_path : String
sessions_path = "/api/v1/chat/sessions"

abbrev pub session_path : String → String
session_path id = "/api/v1/chat/sessions/" <> id

module _ {W : Type 0} (l : Link W) (codec : Codec) where
  -- `Complete`
  unfoldable pub complete : ChatRequest → W → Option (Result ChatResponse × W)
  complete req w = wrapped "chat: " (
      call l "POST" completions_path (some (codec.marshal_chat (record req { stream = false })))
        codec.read_response no_response w)

  -- `Stream`
  unfoldable pub stream : ChatRequest → W → Result Reader × W
  stream req w =
      open_stream l "chat stream: " "GET" chat_stream_path
        (some (codec.marshal_chat (record req { stream = true }))) w

  -- `CreateSession`
  unfoldable pub create_session : String → W → Option (Result Session × W)
  create_session title w =
      call l "POST" sessions_path (some (codec.marshal_session (record { title = title })))
        codec.read_session no_session w

  -- `GetSession`
  unfoldable pub get_session : String → W → Option (Result Session × W)
  get_session id w = call l "GET" (session_path id) none codec.read_session no_session w

  abbrev question_request : String → String → ChatRequest
  question_request session question = record {
    session_id = session;
    messages = record { role = role_user; content = question } ∷ [];
    model = "";
    temperature = "0";
    max_tokens = 0;
    stream = false;
  }

  -- `Ask`
  unfoldable pub ask : String → String → W → Option (Result String × W)
  unfolding complete
  ask session question w =
      field (λ (r : ChatResponse). r.message.content)
        (complete (question_request session question) w)

  -- `AskStream`
  unfoldable pub ask_stream : String → String → W → Result Reader × W
  unfolding stream
  ask_stream session question w = stream (question_request session question) w
