-- ===== src/Interface/Streaming.antt =====
-- apps/bzy-interface/internal/streaming/streaming.go: the hub of the SSE subscribers.
pub mod Safety
pub mod Wire
use bzy_personal.Prelude.{
  ℕ, ◌≡◌, Bool, true, false, String, List, [], ◌∷◌, Option, none, some, str_eq, if◌then◌else◌,
}
use bzy_personal.Prelude.Map.{Map, lookup, insert, delete, values}
use bzy_personal.Runtime.{Json}
use bzy_personal.Interface.Channels
use bzy_personal.Interface.Channels.{Store}

pub record Event : Type 0 where
  pub id : String
  pub event : String
  pub payload : Json

pub record Client : Type 0 where
  pub id : String
  pub topic : String
  pub channel : ℕ

-- Topic to client identifier to client, and the channels. The mutex makes each call one step.
pub record Hub : Type 0 where
  pub clients : Map (Map Client)
  pub chans : Store Event

abbrev pub new_hub : Hub
new_hub = record {
  clients = [];
  chans = record { next = 0; cell = λ a. record { buffer = []; cap = 0; closed = true } };
}

-- A nil inner map reads as an empty one.
abbrev pub inner : Option (Map Client) → Map Client
inner none = []
inner (some m) = m

-- `Subscribe`: a second subscription of a client replaces the first, whose channel stays open.
unfoldable pub subscribe : String → String → Hub → Hub × ℕ
subscribe client_id topic h =
    let a = h.chans.next in
    let c : Client = record { id = client_id; topic = topic; channel = a } in
    (
      record {
        clients = insert topic (insert client_id c (inner (lookup topic h.clients))) h.clients;
        chans = Channels.make 32 h.chans;
      },
      a,
    )

closed_and_deleted : Option (Store Event) → String → String → Map Client → Hub → Option Hub
closed_and_deleted none client_id topic clients h = none
closed_and_deleted (some chans) client_id topic clients h =
    some (record { clients = insert topic (delete client_id clients) h.clients; chans = chans })

remove_client : Option Client → String → String → Map Client → Hub → Option Hub
unfolding closed_and_deleted
remove_client none client_id topic clients h = some h
remove_client (some c) client_id topic clients h =
    closed_and_deleted (Channels.close c.channel h.chans) client_id topic clients h

remove_from : Option (Map Client) → String → String → Hub → Option Hub
unfolding remove_client
remove_from none client_id topic h = some h
remove_from (some clients) client_id topic h =
    remove_client (lookup client_id clients) client_id topic clients h

-- `Unsubscribe`
unfoldable pub unsubscribe : String → String → Hub → Option Hub
unfolding remove_from
unsubscribe client_id topic h = remove_from (lookup topic h.clients) client_id topic h

-- The loop of `Publish`.
send_all : List Client → Event → Store Event → Option (Store Event)
send_all [] e s = some s
send_all (c ∷ cs) e s = elim (Channels.try_send c.channel e s) [
  | none ↦ none
  | some s' ↦ send_all cs e s'
]

published : Option (Store Event) → Hub → Option Hub
published none h = none
published (some s) h = some (record h { chans = s })

-- `Publish`
unfoldable pub publish : String → Event → Hub → Option Hub
unfolding send_all published
publish topic e h = published (send_all (values (inner (lookup topic h.clients))) e h.chans) h
