-- ===== src/Interface/Ws/Examples.antt =====
-- A hub with one connection.
use bzy_personal.Prelude.{ℕ, true, ◌≡◌, inl, refl, some, none, [], if◌then◌else◌}
use bzy_personal.Prelude.Map.{lookup, insert, delete}
use bzy_personal.Interface.Channels.{make, write, close, offered}
use bzy_personal.Interface.Ws.{
  Message, Conn, Hub, new_hub, of_user, connect, register, unregister, with_chans, send_to_user,
}
use bzy_personal.Interface.Ws.Delivery.{has_channel, unregister_then_send, send_to_user-delivers}

abbrev connected : Hub
connected = (connect "c1" "ann" new_hub).0

abbrev conn : Conn
conn = (connect "c1" "ann" new_hub).1

abbrev note : Message
note = record { type = "note"; id = "m1"; payload = "{}" }

abbrev shut : Hub
shut = record {
  conns = delete "c1" connected.conns;
  user_conns = connected.user_conns;
  chans = write 0 (record { buffer = []; cap = 64; closed = true }) connected.chans;
}

unregister_then_send_example : send_to_user "ann" note shut ≡ none
unfolding connect register unregister with_chans make close lookup insert delete
unregister_then_send_example = unregister_then_send conn connected shut note (inl refl) refl

send_to_user-delivers_example :
    (h' : Hub) × (send_to_user "ann" note connected ≡ some h')
    × (h'.conns ≡ connected.conns)
    × (h'.user_conns ≡ connected.user_conns)
    × ((b : ℕ)
        → h'.chans.cell b ≡ (
            if has_channel b (of_user "ann" connected)
            then offered note (connected.chans.cell b)
            else connected.chans.cell b))
unfolding connect register make lookup insert
send_to_user-delivers_example = send_to_user-delivers "ann" note connected (refl, tt) (refl, tt)
