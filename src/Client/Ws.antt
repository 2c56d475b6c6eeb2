-- ===== src/Client/Ws.antt =====
-- pkg/client/ws.go: the connection of a client for pushed messages. The URL library, the dialer, the socket and the codec of
-- a payload are parameters. The mutex makes a call one step; the timer of the pings is left out.
pub mod Dispatched
use bzy_personal.Prelude.{
  ℕ, Bool, true, false, not, String, List, [], ◌∷◌, ◌++◌, Option, none, some, ◌==◌, str_eq,
  if◌then◌else◌,
}
use bzy_personal.Prelude.Map.{Map, lookup, insert}
use bzy_personal.Prelude.Texts.{◌<>◌}
use bzy_personal.Errors.{Error, text, wrap, Result, ok, err, decimal}
use bzy_personal.Runtime.{Json}
use bzy_personal.Client.Http.{Client, token}

pub record WsMessage : Type 0 where
  pub kind : String
  pub id : String
  pub payload : Json

abbrev pub type_task_update : String
type_task_update = "task_update"

abbrev pub type_agent_response : String
type_agent_response = "agent_response"

abbrev pub type_memory_update : String
type_memory_update = "memory_update"

abbrev pub type_workflow_update : String
type_workflow_update = "workflow_update"

abbrev pub type_ping : String
type_ping = "ping"

abbrev pub type_pong : String
type_pong = "pong"

abbrev pub WsHandler : Type 0 → Type 0
WsHandler W = WsMessage → W → Option Error × W

-- The handlers by the type of the message, and whether `done` is closed.
pub record WsConn (W : Type 0) : Type 0 where
  pub handlers : Map (List (WsHandler W))
  pub is_done : Bool

-- The part of a URL that `Connect` changes, and the rest.
pub record Url : Type 0 where
  pub scheme : String
  pub host : String
  pub path : String

unfoldable pub ws_scheme : String → String
ws_scheme s = if str_eq s "http" then "ws" else if str_eq s "https" then "wss" else s

-- The headers of `Connect`.
unfoldable pub connect_headers : Client → Map String
connect_headers c =
    let headers = insert "User-Agent" c.cfg.user_agent [] in
    if not (str_eq c.cfg.api_key "")
    then insert "X-Api-Key" c.cfg.api_key headers
    else if not (str_eq (token c) "")
    then insert "Authorization" ("Bearer " <> token c) headers
    else headers

-- The dialer gives the status of the response.
pub record Dialer (W : Type 0) : Type 0 where
  pub parse : String → Result Url
  pub dial : Url → Map String → W → Result ℕ × W

module _ {W : Type 0} where
  abbrev pub no_handlers : WsConn W
  no_handlers = record { handlers = []; is_done = false }

  after_dial : Result ℕ × W → Result (WsConn W) × W
  after_dial (err e, w) = (err (wrap "ws connect: " e), w)
  after_dial (ok status, w) =
      if status == 101
      then (ok no_handlers, w)
      else (err (text ("ws: unexpected status " <> decimal status)), w)

  after_parse : Dialer W → Client → W → Result Url → Result (WsConn W) × W
  unfolding after_dial
  after_parse d c w (err e) = (err e, w)
  after_parse d c w (ok u) =
      after_dial
        (d.dial (record u { scheme = ws_scheme u.scheme; path = "/ws" }) (connect_headers c) w)

  -- `Connect`
  unfoldable pub connect : Dialer W → Client → W → Result (WsConn W) × W
  unfolding after_parse
  connect d c w = after_parse d c w (d.parse c.cfg.base_url)

  -- A missing key reads as no handlers.
  unfoldable pub handlers_of : String → WsConn W → List (WsHandler W)
  handlers_of kind c = elim (lookup kind c.handlers) [ none ↦ [] | some hs ↦ hs ]

  -- `On`
  unfoldable pub on : String → WsHandler W → WsConn W → WsConn W
  unfolding handlers_of
  on kind h c = record c { handlers = insert kind (handlers_of kind c ++ (h ∷ [])) c.handlers }

  unfoldable pub call_all : List (WsHandler W) → WsMessage → W → W
  call_all [] msg w = w
  call_all (h ∷ hs) msg w = let (ignored, w') = h msg w in call_all hs msg w'

  -- `dispatch`
  unfoldable pub dispatch : WsMessage → WsConn W → W → W
  unfolding handlers_of call_all
  dispatch msg c w = call_all (handlers_of msg.kind c) msg w

  -- `close(wsc.done)` under the `sync.Once`.
  unfoldable pub finish : WsConn W → WsConn W
  finish c = record c { is_done = true }

  -- `readLoop`, for what the reads give: messages, and an error that ends it. At the end of the list it is
  -- waiting for the next.
  unfoldable pub read_loop : List (Result WsMessage) → WsConn W → W → WsConn W × W
  unfolding dispatch finish
  read_loop [] c w = (c, w)
  read_loop (err e ∷ reads) c w = (finish c, w)
  read_loop (ok msg ∷ reads) c w = read_loop reads c (dispatch msg c w)

  -- `Send` and `SendJSON`, for a payload as it is encoded.
  unfoldable pub send : (WsMessage → W → Option Error × W) → WsMessage → W → Option Error × W
  send write_json msg w = write_json msg w

  unfoldable pub send_json :
      (WsMessage → W → Option Error × W) → String → Result Json → W → Option Error × W
  unfolding send
  send_json write_json kind (err e) w = (some e, w)
  send_json write_json kind (ok raw) w =
      send write_json (record { kind = kind; id = ""; payload = raw }) w

  -- `Close`
  unfoldable pub close : (W → Option Error × W) → WsConn W → W → Option Error × WsConn W × W
  unfolding finish
  close close_socket c w = let (e, w') = close_socket w in (e, finish c, w')
