-- ===== src/Interface/Ws.antt =====
-- apps/bzy-interface/internal/ws/handler.go: the hub of the WebSocket connections. `none` is a panic.
-- The lock makes each call one step; `run` handles what arrives on the channels of the hub in order.
pub mod Delivery
mod Examples
use bzy_personal.Prelude.{
  ℕ, ◌≡◌, Bool, true, false, String, List, [], ◌∷◌, ◌++◌, Option, none, some, str_eq, if◌then◌else◌,
}
use bzy_personal.Prelude.Map.{Map, lookup, insert, delete}
use bzy_personal.Runtime.{Json}
use bzy_personal.Interface.Channels
use bzy_personal.Interface.Channels.{Store}

pub record Message : Type 0 where
  pub type : String
  pub id : String
  pub payload : Json

-- A connection, by the address of its send channel.
pub record Conn : Type 0 where
  pub id : String
  pub user_id : String
  pub send : ℕ

pub record Hub : Type 0 where
  pub conns : Map Conn
  pub user_conns : Map (List Conn)
  pub chans : Store Message

abbrev pub new_hub : Hub
new_hub = record {
  conns = [];
  user_conns = [];
  chans = record { next = 0; cell = λ a. record { buffer = []; cap = 0; closed = true } };
}

abbrev pub conns_of : Option (List Conn) → List Conn
conns_of none = []
conns_of (some cs) = cs

-- `userConns[user]`, where a missing key reads as the nil slice.
abbrev pub of_user : String → Hub → List Conn
of_user user h = conns_of (lookup user h.user_conns)

-- The `register` case of `run`.
unfoldable pub register : Conn → Hub → Hub
register c h = record h {
  conns = insert c.id c h.conns;
  user_conns = insert c.user_id (of_user c.user_id h ++ c ∷ []) h.user_conns;
}

-- What `Handler` does for an upgraded connection, up to its read loop: `id` is a fresh uuid.
unfoldable pub connect : String → String → Hub → Hub × Conn
unfolding register
connect id user h =
    let c : Conn = record { id = id; user_id = user; send = h.chans.next } in
    (register c (record h { chans = Channels.make 64 h.chans }), c)

with_chans : Option (Store Message) → Hub → Option Hub
with_chans none h = none
with_chans (some s) h = some (record h { chans = s })

-- The `unregister` case of `run`. The lists of `userConns` are left alone.
unfoldable pub unregister : Conn → Hub → Option Hub
unfolding with_chans
unregister c h =
    with_chans (Channels.close c.send h.chans) (record h { conns = delete c.id h.conns })

-- The loop of `SendToUser`.
send_all : List Conn → Message → Store Message → Option (Store Message)
send_all [] m s = some s
send_all (c ∷ cs) m s = elim (Channels.try_send c.send m s) [
  | none ↦ none
  | some s' ↦ send_all cs m s'
]

unfoldable pub send_to_user : String → Message → Hub → Option Hub
unfolding send_all with_chans
send_to_user user m h = with_chans (send_all (of_user user h) m h.chans) h
